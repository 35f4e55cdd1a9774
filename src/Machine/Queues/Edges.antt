-- ===== src/Machine/Queues/Edges.antt =====
-- The queue bounds through a whole edge, and in every run.
use native.Mathlib.Decide.{dec_lt}
use ttihp_protocol_emulator.Prelude.{
  ℕ, ◌/◌, ◌%◌, ◌^◌, ◌<◌, ◌≤◌, Bool, true, false, not, ◌&&◌, ◌≡◌, ◌≢◌, refl, Option, none, some,
  List, [], ◌∷◌, length, length-map, get_or, arith, sym, ◌∙◌, ◌==◌, map, map_from, get_or-enumerate,
  get_or-map_lt, get_or_outside, length-map_from, map_from-map_from, get_or-replicate,
  if◌then◌else◌,
}
use ttihp_protocol_emulator.Prelude.Bits.{bit}
use ttihp_protocol_emulator.Config.{Config}
use ttihp_protocol_emulator.Engine.{Engine, fresh}
use ttihp_protocol_emulator.Machine.{Machine, engine_at, reset}
use ttihp_protocol_emulator.Machine.Outputs.{outputs, write_ready}
use ttihp_protocol_emulator.Machine.Ports.{
  Written, change_window, capture, accept_read, accept_command, accept_word, accept_write,
  external_events,
}
use ttihp_protocol_emulator.Machine.Mover.{Move, Busy, is_engine, host_dest, scan, serve}
use ttihp_protocol_emulator.Machine.Mover.Grants.{scan-IsFirst}
use ttihp_protocol_emulator.Machine.Queues.{
  engine_edge, settle, host_arrival, move_arrival, settle_all, all_edges,
}
use ttihp_protocol_emulator.Machine.Queues.Bounds.{
  Fits, Act_queues, settle_queues, arrival-Fits, arrival_other,
}
use ttihp_protocol_emulator.Machine.Tick.{restall, clock_edge, engines_edge, host_edge, edge, tick}
use ttihp_protocol_emulator.Machine.HostSide.{
  engines-serve, engines-change_window, host_edge-MayAct,
}
use ttihp_protocol_emulator.Machine.Handshake.{outputs_ready}
use ttihp_protocol_emulator.Machine.Reach.{Input, run}

abbrev pub AllFit : ℕ → List Engine → Type 0
AllFit n es = (i : ℕ) → Fits n (get_or es i fresh)

-- no longer queues than before the edge
abbrev NoLonger : List Engine → List Engine → Type 0
NoLonger before es =
    (i : ℕ)
    → (length (get_or es i fresh).tx ≤ length (get_or before i fresh).tx)
      × (length (get_or es i fresh).rx ≤ length (get_or before i fresh).rx)

module _ (cfg : Config) (before : List Engine) (fits : AllFit cfg.fifo_words before) where
  -- every engine after its step
  settled_fit :
      (m : Machine) (host_rx : Option ℕ) (move : Option Move) (signals : ℕ)
      → NoLonger before m.engines
      → (i : ℕ)
      → let e' =
          get_or (map_from 0 (settle host_rx move signals) (all_edges cfg before m)) i fresh in
        Fits cfg.fifo_words e' × (length e'.tx ≤ length (get_or before i fresh).tx)
  unfolding all_edges
  settled_fit m host_rx move signals short i =
      let f =
        λ (i : ℕ) (e : Engine). settle host_rx move signals i (engine_edge cfg before m i e) in
      rw map_from-map_from (elim (dec_lt i (length m.engines)) [
        | yes p ↦ rw (get_or-enumerate f m.engines i fresh fresh p) (
            settle_queues cfg before m i (get_or m.engines i fresh) host_rx move signals (short i).0
              (short i).1 (fits i))
        | no p ↦
            rw
              (get_or_outside (map_from 0 f m.engines) i fresh
                (omega (arith, length-map_from 0 f m.engines)))
              (record { tx = omega arith; rx = omega arith }, omega arith)
      ])

  -- the host's word and the moved word come to different queues that had room
  arrivals_fit :
      (es : List Engine) (host_tx : Option (ℕ × ℕ)) (move : Option Move)
      → AllFit cfg.fifo_words es
      → ((i : ℕ) → length (get_or es i fresh).tx ≤ length (get_or before i fresh).tx)
      → ((d word : ℕ)
          → host_tx ≡ some (d, word)
          → length (get_or before d fresh).tx < cfg.fifo_words)
      → ((mv : Move)
          → move ≡ some mv
          → (length (get_or before mv.dest fresh).tx < cfg.fifo_words)
            × (is_engine (host_dest host_tx) mv.dest ≡ false))
      → AllFit cfg.fifo_words (move_arrival move (host_arrival host_tx es))
  unfolding move_arrival host_arrival
  arrivals_fit es none none fit short host moved = fit
  arrivals_fit es none (some mv) fit short host moved =
      arrival-Fits cfg.fifo_words es mv.dest mv.word fit
        (omega (arith, short mv.dest, (moved mv refl).0))
  arrivals_fit es (some (d, word)) none fit short host moved =
      arrival-Fits cfg.fifo_words es d word fit (omega (arith, short d, host d word refl))
  arrivals_fit es (some (d, word)) (some mv) fit short host moved =
      let (room, apart) = moved mv refl in
      let ne : d ≢ mv.dest = ground (arith, apart) in
      let fit' =
        arrival-Fits cfg.fifo_words es d word fit (omega (arith, short d, host d word refl)) in
      arrival-Fits cfg.fifo_words _ mv.dest mv.word fit' (
        rw (arrival_other cfg.fifo_words es d word mv.dest ne) (omega (arith, short mv.dest, room)))

module _ (cfg : Config) where
  engines_edge_fit :
      (m : Machine) (changed : Bool) (host_rx : Option ℕ) (w : Written)
      → AllFit cfg.fifo_words m.engines
      → NoLonger m.engines w.machine.engines
      → ((d word : ℕ) → w.host_tx ≡ some (d, word) → length (engine_at m d).tx < cfg.fifo_words)
      → AllFit cfg.fifo_words (engines_edge cfg m changed host_rx w).engines
  unfolding engines_edge settle_all
  engines_edge_fit m changed host_rx w fit short host =
      let busy : Busy = record {
        reserved = if m.window == 3 && not changed then some m.selected else none;
        host_dest = host_dest w.host_tx;
        edited = w.edited_route;
      } in
      let move = scan cfg m.engines busy w.machine cfg.engines 0 in
      let served = serve cfg m.engines busy w.machine move in
      let same : served.engines ≡ w.machine.engines =
        engines-serve cfg m.engines busy w.machine move in
      let settled = settled_fit cfg m.engines fit served host_rx move _ (rw same short) in
      arrivals_fit cfg m.engines fit _ w.host_tx move (λ i. (settled i).0) (λ i. (settled i).1) host
        λ mv q.
          let g = (scan-IsFirst cfg m.engines busy w.machine cfg.engines 0 mv q).granted in
          (g.room, g.free)

  clock_edge_fit :
      (m : Machine) (pins : ℕ)
      → AllFit cfg.fifo_words m.engines
      → AllFit cfg.fifo_words (clock_edge cfg m pins).engines
  unfolding clock_edge restall
  clock_edge_fit m pins fit i = elim (dec_lt i (length m.engines)) [
    | yes p ↦
        rw (get_or-map_lt (restall cfg m.sync1) m.engines i fresh fresh p)
          (record { tx = (fit i).tx; rx = (fit i).rx })
    | no p ↦
        rw
          (get_or_outside (map (restall cfg m.sync1) m.engines) i fresh
            (omega (arith, length-map (restall cfg m.sync1) m.engines)))
          (record { tx = omega arith; rx = omega arith })
  ]

pub selected-capture :
    (m : Machine) (window : ℕ) (changed : Bool) → (capture m window changed).selected ≡ m.selected
unfolding capture
selected-capture m window changed = ground arith

pub selected-accept_read :
    (m : Machine) (accepted : Bool) → (accept_read m accepted).0.selected ≡ m.selected
unfolding accept_read
selected-accept_read m accepted = ground arith

pub selected-change_window :
    (m : Machine) (window : ℕ) → (change_window m window).selected ≡ m.selected
unfolding change_window
selected-change_window m window = ground arith

ready_room :
    (cfg : Config) (m : Machine) (window : ℕ)
    → window ≡ 2
    → write_ready cfg m window ≡ true
    → length (engine_at m m.selected).tx < cfg.fifo_words
unfolding write_ready
ready_room cfg m window q h = ground arith

-- The host brings a word for the selected engine, in window 2, to a port that accepted it.
accept_write_tx :
    (cfg : Config) (m : Machine) (window nibble : ℕ) (accepted : Bool) (events d word : ℕ)
    → (accept_write cfg m window nibble accepted events).host_tx ≡ some (d, word)
    → (accepted ≡ true) × (window ≡ 2) × (d ≡ m.selected)
unfolding accept_write accept_word accept_command
accept_write_tx cfg m window nibble accepted events d word h = ground arith

module _ (cfg : Config) (m : Machine) (ui : ℕ) where
  -- A word that the host writes to a TX queue finds room there.
  pub host_edge_room :
      (d word : ℕ)
      → (host_edge cfg m ui).written.host_tx ≡ some (d, word)
      → length (engine_at m d).tx < cfg.fifo_words
  unfolding host_edge
  host_edge_room d word h =
      let window = ui / 2 ^ 6 % 4 in
      let changed = not (window == m.window) in
      let pre = outputs cfg m ui false true in
      let m' = change_window m window in
      let captured = capture m' window changed in
      let accepted = bit ui 5 && bit pre.uo 5 in
      let (taken, tx_window, at) =
        accept_write_tx cfg (accept_read captured accepted).0 window (ui % 16)
          (bit ui 4 && bit pre.uo 4) (external_events m' 0 0 m'.engines) d word h in
      let here : d ≡ m.selected =
        at
        ∙ selected-accept_read captured accepted
        ∙ selected-capture m' window changed
        ∙ selected-change_window m window in
      let ready : write_ready cfg m window ≡ true =
        sym (outputs_ready cfg m ui) ∙ ground (arith, taken) in
      rw here (ready_room cfg m window tx_window ready)

  pub edge-AllFit :
      (pins : ℕ)
      → AllFit cfg.fifo_words m.engines
      → AllFit cfg.fifo_words (edge cfg m ui pins).engines
  unfolding edge
  edge-AllFit pins fit =
      let host = host_edge cfg m ui in
      let same : host.before.engines ≡ m.engines =
        unfold host_edge in engines-change_window m (ui / 2 ^ 6 % 4) in
      clock_edge_fit cfg _ pins (
        engines_edge_fit cfg host.before host.changed host.host_rx host.written (rw same fit)
          (rw same (λ i. Act_queues cfg _ _ (host_edge-MayAct cfg m ui i)))
          (rw same host_edge_room))

module _ (cfg : Config) where
  reset-AllFit : AllFit cfg.fifo_words (reset cfg).engines
  unfolding reset
  reset-AllFit i = rw get_or-replicate (record { tx = omega arith; rx = omega arith })

  tick-AllFit :
      (m : Machine) (ui pins : ℕ) (reset_in enabled : Bool)
      → AllFit cfg.fifo_words m.engines
      → AllFit cfg.fifo_words (tick cfg m ui pins reset_in enabled).0.engines
  unfolding tick
  tick-AllFit m ui pins true enabled fit = reset-AllFit
  tick-AllFit m ui pins false true fit = edge-AllFit cfg m ui pins fit
  tick-AllFit m ui pins false false fit = reset-AllFit

  run-AllFit_from :
      (is : List Input) (m : Machine)
      → AllFit cfg.fifo_words m.engines
      → AllFit cfg.fifo_words (run cfg is m).engines
  unfolding run
  run-AllFit_from [] m fit = fit
  run-AllFit_from (i ∷ is) m fit =
      run-AllFit_from is _ (tick-AllFit m i.ui i.pins i.reset i.enabled fit)

  -- In every run from reset no queue of any engine holds more than `fifo_words` words, whatever the
  -- host writes, the mover forwards and the engines push on the same edge.
  pub run-AllFit : (is : List Input) → AllFit cfg.fifo_words (run cfg is (reset cfg)).engines
  run-AllFit is = run-AllFit_from is (reset cfg) reset-AllFit
