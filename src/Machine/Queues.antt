-- ===== src/Machine/Queues.antt =====
-- The engines and queues of `tick` in test/model/reference.py: every engine steps on what was there
-- before the edge, then the queues and mailboxes take the accepted changes.
pub mod Bounds
pub mod Edges
use ttihp_protocol_emulator.Prelude.{
  ℕ, ◌∷◌, bit_or, ◌||◌, Option, none, some, List, [], ◌++◌, nonempty, ltb, length, get_or, popleft,
  map_from, modify, if◌then◌else◌,
}
use ttihp_protocol_emulator.Prelude.Bits.{bit}
use ttihp_protocol_emulator.Config.{Config}
use ttihp_protocol_emulator.Engine.{Engine, Accepted, fresh, nothing}
use ttihp_protocol_emulator.Engine.Pads.{reg}
use ttihp_protocol_emulator.Engine.Step.{step}
use ttihp_protocol_emulator.Machine.{Machine}
use ttihp_protocol_emulator.Machine.Mover.{Move, is_engine}

abbrev pub move_source : Option Move → Option ℕ
move_source none = none
move_source (some move) = some move.source

module _ (cfg : Config) (before : List Engine) where
  -- one engine's cycle; an engine that the host has just started or stopped does not step
  unfoldable pub engine_edge : Machine → ℕ → Engine → Engine × Accepted
  engine_edge m i engine =
      let was = get_or before i fresh in
      let e = record engine { event = was.event } in
      if m.starts i || m.stops i
      then (e, nothing)
      else step cfg m.sync2 m.timestamp (nonempty was.tx) (ltb (length was.rx) cfg.fifo_words) e

  unfoldable pub all_edges : Machine → List (Engine × Accepted)
  all_edges m = map_from 0 (engine_edge m) m.engines

-- `signals`, with what each engine adds
unfoldable pub collect : ℕ → List (Engine × Accepted) → ℕ
collect signals [] = signals
collect signals ((e, change) ∷ rest) = collect (bit_or signals change.signal) rest

-- the queues and the mailbox of engine `i` after its step
unfoldable pub settle : Option ℕ → Option Move → ℕ → ℕ → Engine × Accepted → Engine
settle host_rx move signals i (e, change) =
    let taken =
      if is_engine host_rx i || is_engine (move_source move) i then popleft e.rx else e.rx in
    record e {
      tx = if change.pop then popleft e.tx else e.tx;
      rx = if change.push then taken ++ (reg e 1 ∷ []) else taken;
      event = bit signals i || e.event;
    }

abbrev pub append_tx : ℕ → Engine → Engine
append_tx word e = record e { tx = e.tx ++ (word ∷ []) }

-- the words that the host and the mover bring
unfoldable pub host_arrival : Option (ℕ × ℕ) → List Engine → List Engine
host_arrival none es = es
host_arrival (some (dest, word)) es = modify es dest fresh (append_tx word)

unfoldable pub move_arrival : Option Move → List Engine → List Engine
move_arrival none es = es
move_arrival (some move) es = modify es move.dest fresh (append_tx move.word)

unfoldable pub settle_all :
    Option ℕ → Option (ℕ × ℕ) → Option Move → ℕ → List (Engine × Accepted) → List Engine
settle_all host_rx host_tx move signals changes =
    move_arrival move (host_arrival host_tx (map_from 0 (settle host_rx move signals) changes))
