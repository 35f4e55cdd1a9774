-- ===== src/Machine/Reading/Heads.antt =====
-- The head of an RX queue through the engines' part of an edge, where nobody takes it.
use ttihp_protocol_emulator.Prelude.{
  ℕ, ◌<◌, true, false, not, ◌&&◌, ◌≡◌, refl, inl, inr, Option, none, some, List, [], ◌∷◌, ◌++◌,
  nonempty, get_or, set, map_from, length, map_from-map_from, get_or-enumerate, get_or-map_lt,
  get_or-set, get_or_outside, ◌==◌, ltb, arith, Bool-cases, if◌then◌else◌,
}
use native.Mathlib.Decide.{dec_lt}
use ttihp_protocol_emulator.Config.{Config}
use ttihp_protocol_emulator.Engine.{Engine, Accepted, fresh}
use ttihp_protocol_emulator.Machine.{Machine, engine_at}
use ttihp_protocol_emulator.Machine.Ports.{Written}
use ttihp_protocol_emulator.Machine.Mover.{Move, Busy, is_engine, host_dest, scan, serve}
use ttihp_protocol_emulator.Machine.Queues.{
  move_source, engine_edge, all_edges, settle, append_tx, host_arrival, move_arrival, settle_all,
}
use ttihp_protocol_emulator.Machine.Queues.Bounds.{engine_edge_queues}
use ttihp_protocol_emulator.Machine.Tick.{restall, clock_edge, engines_edge}
use ttihp_protocol_emulator.Machine.Mover.Grants.{scan-IsFirst}
use ttihp_protocol_emulator.Machine.HostSide.{engines-serve}

-- the RX queue has a word, and `word` is its first
pub record HasHead (word : ℕ) (e : Engine) : Type 0 where
  pub filled : nonempty e.rx ≡ true
  pub first : get_or e.rx 0 0 ≡ word

head-append :
    (xs ys : List ℕ)
    → nonempty xs ≡ true
    → (nonempty (xs ++ ys) ≡ true) × (get_or (xs ++ ys) 0 0 ≡ get_or xs 0 0)
head-append [] ys h = absurd (ground arith)
head-append (x ∷ xs) ys h = (refl, refl)

module _ (word i : ℕ) where
  settle_head :
      (host_rx : Option ℕ) (move : Option Move) (signals : ℕ) (x : Engine × Accepted)
      → is_engine host_rx i ≡ false
      → is_engine (move_source move) i ≡ false
      → HasHead word x.0
      → HasHead word (settle host_rx move signals i x)
  unfolding settle
  settle_head host_rx move signals (e, change) hr hm h =
      rw (hr, hm) (ground (arith, head-append e.rx, h))

  within : (es : List Engine) → HasHead word (get_or es i fresh) → i < length es
  within es h = elim (dec_lt i (length es)) [
    | yes p ↦ p
    | no p ↦ absurd (ground (arith, h.filled, get_or_outside es i fresh))
  ]

  arrival_head :
      (es : List Engine) (d w : ℕ)
      → HasHead word (get_or es i fresh)
      → HasHead word (get_or (set es d (append_tx w (get_or es d fresh))) i fresh)
  arrival_head es d w h = elim (Bool-cases (d == i && ltb d (length es))) [
    | inr q ↦ rw get_or-set (rw q h)
    | inl q ↦
        let eq : d ≡ i = ground (arith, q) in
        rw get_or-set (rw (q, eq) (record { filled = h.filled; first = h.first }))
  ]

  host_arrival_head :
      (host_tx : Option (ℕ × ℕ)) (es : List Engine)
      → HasHead word (get_or es i fresh)
      → HasHead word (get_or (host_arrival host_tx es) i fresh)
  unfolding host_arrival
  host_arrival_head none es h = h
  host_arrival_head (some (d, w)) es h = arrival_head es d w h

  move_arrival_head :
      (move : Option Move) (es : List Engine)
      → HasHead word (get_or es i fresh)
      → HasHead word (get_or (move_arrival move es) i fresh)
  unfolding move_arrival
  move_arrival_head none es h = h
  move_arrival_head (some move) es h = arrival_head es move.dest move.word h

  settled_head :
      (cfg : Config) (before : List Engine) (m : Machine) (host_rx : Option ℕ) (move : Option Move)
      (signals : ℕ)
      → is_engine host_rx i ≡ false
      → is_engine (move_source move) i ≡ false
      → HasHead word (engine_at m i)
      → HasHead word
          (get_or (map_from 0 (settle host_rx move signals) (all_edges cfg before m)) i fresh)
  unfolding all_edges
  settled_head cfg before m host_rx move signals hr hm h =
      let f =
        λ (i : ℕ) (e : Engine). settle host_rx move signals i (engine_edge cfg before m i e) in
      let (tx, rx, room) = engine_edge_queues cfg before m i (engine_at m i) in
      rw map_from-map_from (
        rw (get_or-enumerate f m.engines i fresh fresh (within m.engines h)) (
          settle_head host_rx move signals (engine_edge cfg before m i (engine_at m i)) hr hm
            (record { filled = rw rx h.filled; first = rw rx h.first })))

  unmoved :
      (cfg : Config) (before : List Engine) (busy : Busy) (m : Machine) (move : Option Move)
      → busy.reserved ≡ some i
      → scan cfg before busy m cfg.engines 0 ≡ move
      → is_engine (move_source move) i ≡ false
  unmoved cfg before busy m none r q = refl
  unmoved cfg before busy m (some mv) r q =
      let free = (scan-IsFirst cfg before busy m cfg.engines 0 mv q).granted.unreserved in
      ground (arith, r, free)

  -- The engines' part of an edge leaves the head that the host is reading.
  pub engines_edge_head :
      (cfg : Config) (m : Machine) (host_rx : Option ℕ) (w : Written)
      → m.window ≡ 3
      → m.selected ≡ i
      → is_engine host_rx i ≡ false
      → HasHead word (engine_at w.machine i)
      → HasHead word (engine_at (engines_edge cfg m false host_rx w) i)
  unfolding engines_edge settle_all
  engines_edge_head cfg m host_rx w three here hr h =
      let busy : Busy = record {
        reserved = if m.window == 3 && not false then some m.selected else none;
        host_dest = host_dest w.host_tx;
        edited = w.edited_route;
      } in
      let held : busy.reserved ≡ some i = rw (three, here) refl in
      let move = scan cfg m.engines busy w.machine cfg.engines 0 in
      let served = serve cfg m.engines busy w.machine move in
      let same : served.engines ≡ w.machine.engines =
        engines-serve cfg m.engines busy w.machine move in
      move_arrival_head move _ (
        host_arrival_head w.host_tx _ (
          settled_head cfg m.engines served host_rx move _ hr
            (unmoved cfg m.engines busy w.machine move held refl) (rw same h)))

  -- The clock leaves it.
  pub clock_edge_head :
      (cfg : Config) (m : Machine) (pins : ℕ)
      → HasHead word (engine_at m i)
      → HasHead word (engine_at (clock_edge cfg m pins) i)
  unfolding clock_edge restall
  clock_edge_head cfg m pins h =
      rw (get_or-map_lt (restall cfg m.sync1) m.engines i fresh fresh (within m.engines h))
        (record { filled = h.filled; first = h.first })
