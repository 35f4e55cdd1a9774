-- ===== src/Machine/Rule.antt =====
-- The rule for invariants of an engine: what acts, cycles and queue changes keep, every edge keeps.
use native.Mathlib.Decide.{ℕ_discrete, dec_lt}
use ttihp_protocol_emulator.Prelude.{
  ℕ, ◌+◌, Bool, ◌||◌, map_from-map_from, inl, inr, Option, none, some, List, arith, length, get_or,
  set, map, map_from, get_or-map_from, get_or_outside, length-map_from, length-map, get_or-map_lt,
  get_or-set, Bool-cases, ==_eq, ==_ne, ltb, subst,
}
use ttihp_protocol_emulator.Config.{Config}
use ttihp_protocol_emulator.Engine.{Engine, Accepted, fresh}
use ttihp_protocol_emulator.Engine.Step.{step}
use ttihp_protocol_emulator.Machine.{Machine, engine_at}
use ttihp_protocol_emulator.Machine.Ports.{Written}
use ttihp_protocol_emulator.Machine.Mover.{Move}
use ttihp_protocol_emulator.Machine.Queues.{
  engine_edge, all_edges, settle, append_tx, settle_all, host_arrival, move_arrival,
}
use ttihp_protocol_emulator.Machine.Tick.{restall, clock_edge, engines_edge, host_edge, edge}
use ttihp_protocol_emulator.Machine.Acts.{Act}
use ttihp_protocol_emulator.Machine.HostSide.{engines-serve, host_edge-MayAct}

-- A relation between an engine and what becomes of it that every cycle and every change of its
-- queues, mailbox and stall flag satisfies.
pub record IsFrame (cfg : Config) (R : Engine → Engine → Type 0) : Type 0 where
  pub same : (e : Engine) → R e e
  pub trans : (e e' e'' : Engine) → R e e' → R e' e'' → R e e''
  pub cycle :
      (sync2 timestamp : ℕ) (tx_available rx_space : Bool) (e : Engine)
      → R e (step cfg sync2 timestamp tx_available rx_space e).0
  pub quiet :
      (e : Engine) (tx rx : List ℕ) (event stalled : Bool)
      → R e (record e { tx = tx; rx = rx; event = event; stalled = stalled })

abbrev Near : (Engine → Engine → Type 0) → List Engine → List Engine → Type 0
Near R es es' = (i : ℕ) → R (get_or es i fresh) (get_or es' i fresh)

module _ (cfg : Config) (R : Engine → Engine → Type 0) (k : IsFrame cfg R) where
  Near-trans : (es es' es'' : List Engine) → Near R es es' → Near R es' es'' → Near R es es''
  Near-trans es es' es'' h h' i = k.trans _ _ _ (h i) (h' i)

  Near-set :
      (es : List Engine) (j : ℕ) (e : Engine) → R (get_or es j fresh) e → Near R es (set es j e)
  Near-set es j e r i = elim (ℕ_discrete j i) [
    | no ne ↦ rw get_or-set (rw (==_ne ne) (k.same _))
    | yes eq ↦ elim (Bool-cases (ltb j (length es))) [
      | inl q ↦ rw get_or-set (rw (q, ==_eq eq) (rw (← eq) r))
      | inr q ↦ rw get_or-set (rw (q, ==_eq eq) (k.same _))
    ]
  ]

  Near-map_from :
      (f : ℕ → Engine → Engine)
      → ((i : ℕ) (e : Engine) → R e (f i e))
      → (es : List Engine) → Near R es (map_from 0 f es)
  Near-map_from f r es i = elim (dec_lt i (length es)) [
    | yes p ↦ rw (get_or-map_from 0 f es i fresh fresh p) (r (0 + i) _)
    | no p ↦ rw (get_or_outside es i fresh (omega arith)) (
        rw (get_or_outside (map_from 0 f es) i fresh (omega (arith, length-map_from 0 f es)))
          (k.same fresh))
  ]

  settle_R :
      (host_rx : Option ℕ) (move : Option Move) (signals i : ℕ) (x : Engine × Accepted)
      → R x.0 (settle host_rx move signals i x)
  unfolding settle
  settle_R host_rx move signals i (e, change) = k.quiet e _ _ _ e.stalled

  engine_edge_R :
      (before : List Engine) (m : Machine) (i : ℕ) (e : Engine)
      → R e (engine_edge cfg before m i e).0
  unfolding engine_edge
  engine_edge_R before m i e =
      let delivered = k.quiet e e.tx e.rx (get_or before i fresh).event e.stalled in
      elim (Bool-cases (m.starts i || m.stops i)) [
        | inl q ↦ rw q delivered
        | inr q ↦ rw q (k.trans _ _ _ delivered (k.cycle _ _ _ _ _))
      ]

  append_R : (e : Engine) (word : ℕ) → R e (append_tx word e)
  append_R e word = k.quiet e _ e.rx e.event e.stalled

  host_arrival_R :
      (host_tx : Option (ℕ × ℕ)) (es : List Engine) → Near R es (host_arrival host_tx es)
  unfolding host_arrival
  host_arrival_R none es = λ i. k.same _
  host_arrival_R (some (dest, word)) es = Near-set es dest _ (append_R (get_or es dest fresh) word)

  move_arrival_R : (move : Option Move) (es : List Engine) → Near R es (move_arrival move es)
  unfolding move_arrival
  move_arrival_R none es = λ i. k.same _
  move_arrival_R (some move) es =
      Near-set es move.dest _ (append_R (get_or es move.dest fresh) move.word)

  settle_all_R :
      (before : List Engine) (m : Machine) (host_rx : Option ℕ) (host_tx : Option (ℕ × ℕ))
      (move : Option Move) (signals : ℕ)
      → Near R m.engines (settle_all host_rx host_tx move signals (all_edges cfg before m))
  unfolding settle_all all_edges
  settle_all_R before m host_rx host_tx move signals =
      let f =
        λ (i : ℕ) (e : Engine). settle host_rx move signals i (engine_edge cfg before m i e) in
      let settled : Near R m.engines (
          map_from 0 (settle host_rx move signals)
            (map_from 0 (engine_edge cfg before m) m.engines)) =
        rw map_from-map_from (
          Near-map_from f
            (λ i e. k.trans _ _ _ (engine_edge_R before m i e) (settle_R host_rx move signals i _))
            m.engines) in
      Near-trans _ _ _ settled (Near-trans _ _ _ (host_arrival_R host_tx _) (move_arrival_R move _))

  engines_edge_R :
      (m : Machine) (changed : Bool) (host_rx : Option ℕ) (w : Written)
      → Near R w.machine.engines (engines_edge cfg m changed host_rx w).engines
  unfolding engines_edge
  engines_edge_R m changed host_rx w =
      subst (λ es. Near R es (engines_edge cfg m changed host_rx w).engines)
        (engines-serve cfg m.engines _ w.machine _) (settle_all_R m.engines _ host_rx w.host_tx _ _)

  clock_edge_R : (m : Machine) (pins : ℕ) → Near R m.engines (clock_edge cfg m pins).engines
  unfolding clock_edge restall
  clock_edge_R m pins i = elim (dec_lt i (length m.engines)) [
    | yes p ↦
        rw (get_or-map_lt (restall cfg m.sync1) m.engines i fresh fresh p)
          (let e = get_or m.engines i fresh in k.quiet e e.tx e.rx e.event _)
    | no p ↦ rw (get_or_outside m.engines i fresh (omega arith)) (
        rw
          (get_or_outside (map (restall cfg m.sync1) m.engines) i fresh
            (omega (arith, length-map (restall cfg m.sync1) m.engines)))
          (k.same fresh))
  ]

  -- After the host's act an edge keeps to the relation.
  pub edge_R :
      (m : Machine) (ui pins i : ℕ)
      → R (engine_at (host_edge cfg m ui).written.machine i) (engine_at (edge cfg m ui pins) i)
  unfolding edge
  edge_R m ui pins i =
      let host = host_edge cfg m ui in
      k.trans _ _ _ (engines_edge_R host.before host.changed host.host_rx host.written i)
        (clock_edge_R _ pins i)

-- What an invariant of an engine must survive.
pub record IsKept (cfg : Config) (P : Engine → Type 0) : Type 0 where
  pub at_rest : P fresh
  pub act : (e e' : Engine) → Act cfg e e' → P e → P e'
  pub cycle :
      (sync2 timestamp : ℕ) (tx_available rx_space : Bool) (e : Engine)
      → P e
      → P (step cfg sync2 timestamp tx_available rx_space e).0
  pub quiet :
      (e : Engine) (tx rx : List ℕ) (event stalled : Bool)
      → P e
      → P (record e { tx = tx; rx = rx; event = event; stalled = stalled })

abbrev pub Each : (Engine → Type 0) → List Engine → Type 0
Each P es = (i : ℕ) → P (get_or es i fresh)

module _ (cfg : Config) (P : Engine → Type 0) (k : IsKept cfg P) where
  keeping : IsFrame cfg (λ e e'. P e → P e')
  keeping = record {
    same = λ e h. h;
    trans = λ e e' e'' f g h. g (f h);
    cycle = λ s t a r e h. k.cycle s t a r e h;
    quiet = λ e tx rx event stalled h. k.quiet e tx rx event stalled h;
  }

  -- The rule: one edge keeps the invariant of every engine.
  pub edge_P : (m : Machine) (ui pins : ℕ) → Each P m.engines → Each P (edge cfg m ui pins).engines
  edge_P m ui pins h i =
      edge_R cfg (λ e e'. P e → P e') keeping m ui pins i
        (elim (host_edge-MayAct cfg m ui i) [
          | inl same ↦ rw same (h i)
          | inr a ↦ k.act _ _ a (h i)
        ])
