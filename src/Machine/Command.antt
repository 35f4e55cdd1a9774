-- ===== src/Machine/Command.antt =====
-- `command` and `program_word` of test/model/reference.py. Each operation has its test for rejection
-- and its effect; `command` applies the effect or sets the host fault. The source's loops over the
-- chosen engines are one pass over all engines.
use ttihp_protocol_emulator.Prelude.{
  ℕ, suc, ◌-◌, ◌/◌, ◌%◌, ◌^◌, bit_and, bit_or, Bool, true, false, not, ◌&&◌, ◌||◌, Option, none,
  some, List, [], ◌∷◌, ◌++◌, nonzero, ltb, leb, ◌==◌, length, get_elem?, set, map_from, any_from,
  if◌then◌else◌,
}
use ttihp_protocol_emulator.Prelude.Bits.{bit, and_not}
use ttihp_protocol_emulator.Config.{Config}
use ttihp_protocol_emulator.Engine.{Engine, start}
use ttihp_protocol_emulator.Machine.{Machine, Route, EngineSet, engine_at}

-- The commands 0 to 11, under their names of docs/isa.md.
pub data HostOp : Type 0 where
  select begin commit own start_op stop_op route clear read_sel event_op flush trigger_op : HostOp

abbrev pub host_ops : List HostOp
host_ops =
    select ∷ begin ∷ commit ∷ own ∷ start_op ∷ stop_op ∷ route ∷ clear ∷ read_sel ∷ event_op ∷ flush
    ∷ trigger_op ∷ []

unfoldable pub host_op : ℕ → Option HostOp
host_op op = get_elem? host_ops op

-- `self._starts.add(i)` and the like for every chosen engine
abbrev pub add_one : ℕ → EngineSet → EngineSet
add_one i s j = j == i || s j

abbrev pub add_chosen : ℕ → EngineSet → EngineSet
add_chosen mask s j = bit mask j || s j

abbrev pub set_engine : Machine → ℕ → Engine → Machine
set_engine m i e = record m { engines = set m.engines i e }

-- the effect `f` on every engine of a mask
abbrev pub on_chosen : ℕ → (Engine → Engine) → List Engine → List Engine
on_chosen mask f = map_from 0 (λ i e. if bit mask i then f e else e)

-- the pins that the other engines own
unfoldable pub others_own : ℕ → ℕ → ℕ → List Engine → ℕ
others_own selected i other [] = other
others_own selected i other (e ∷ es) =
    others_own selected (suc i) (if i == selected then other else bit_or other e.ownership) es

abbrev pub touches : ℕ → ℕ → Option Route → Bool
touches selected source none = source == selected
touches selected source (some r) = source == selected || r.dest == selected

-- the route that a ROUTE payload asks for
abbrev pub new_route : ℕ → Option Route
new_route payload =
    let count = payload / 2 ^ 5 % 2 ^ 16 in
    if bit payload 4 && nonzero count
    then some (record { dest = payload / 2 ^ 2 % 4; count = count })
    else none

module _ (cfg : Config) where
  -- a mask that names an engine that is not there
  abbrev pub absent : ℕ → Bool
  absent mask = nonzero (and_not mask (2 ^ cfg.engines - 1))

  unfoldable pub rejects : HostOp → Machine → ℕ → Bool
  rejects HostOp.select m payload = leb cfg.engines payload
  rejects HostOp.begin m payload = nonzero payload
  rejects HostOp.commit m payload =
      let e = engine_at m m.selected in
      nonzero (payload / 2 ^ 16)
      || (e.running
          || (not e.writing
              || (not (ltb 0 payload && leb payload cfg.program_words)
                  || not (payload == length e.program))))
  rejects HostOp.own m payload =
      let owned = payload % 256 in
      let drain = payload / 2 ^ 8 % 256 in
      nonzero (payload / 2 ^ 16)
      || ((engine_at m m.selected).running
          || (nonzero (bit_and owned (others_own m.selected 0 0 m.engines))
              || nonzero (and_not drain owned)))
  rejects HostOp.start_op m payload =
      absent payload
      || any_from 0 (λ i e. bit payload i && (not e.committed || nonzero e.fault)) m.engines
  rejects HostOp.stop_op m payload = absent payload
  rejects HostOp.route m payload =
      nonzero (payload / 2 ^ 21)
      || (leb cfg.engines (payload % 4) || leb cfg.engines (payload / 2 ^ 2 % 4))
  rejects HostOp.clear m payload =
      let mask = and_not payload (2 ^ 23) in
      absent mask || any_from 0 (λ i e. bit mask i && e.running) m.engines
  rejects HostOp.read_sel m payload = ltb 7 payload
  rejects HostOp.event_op m payload = absent payload
  rejects HostOp.flush m payload = nonzero payload || (engine_at m m.selected).running
  rejects HostOp.trigger_op m payload =
      nonzero (payload / 2 ^ 6) || (engine_at m m.selected).running

unfoldable pub effect : HostOp → Machine → ℕ → Machine
unfolding start
effect HostOp.select m payload = record m { selected = payload }
effect HostOp.begin m payload =
    let e = engine_at m m.selected in
    record m {
      engines = set m.engines m.selected (record e {
        running = false;
        committed = false;
        direction = 0;
        program = [];
        writing = true;
      });
      stops = add_one m.selected m.stops;
    }
effect HostOp.commit m payload =
    set_engine m m.selected (record (engine_at m m.selected) { committed = true; writing = false })
effect HostOp.own m payload = set_engine m m.selected (record (engine_at m m.selected) {
  ownership = payload % 256;
  open_drain = payload / 2 ^ 8 % 256;
})
effect HostOp.start_op m payload = record m {
  engines = on_chosen payload start m.engines;
  starts = add_chosen payload m.starts;
}
effect HostOp.stop_op m payload = record m {
  engines = on_chosen payload (λ e. record e { running = false; direction = 0 }) m.engines;
  stops = add_chosen payload m.stops;
}
effect HostOp.route m payload = record m { routes = set m.routes (payload % 4) (new_route payload) }
effect HostOp.clear m payload = record m {
  host_fault = m.host_fault && not (bit payload 23);
  engines = on_chosen (and_not payload (2 ^ 23)) (λ e. record e { fault = 0 }) m.engines;
}
effect HostOp.read_sel m payload = record m { read_select = payload }
effect HostOp.event_op m payload = record m {
  engines = on_chosen payload (λ e. record e { event = true }) m.engines;
}
effect HostOp.flush m payload = record m {
  engines = set m.engines m.selected (record (engine_at m m.selected) { tx = []; rx = [] });
  routes = map_from 0 (λ source r. if touches m.selected source r then none else r) m.routes;
}
effect HostOp.trigger_op m payload = set_engine m m.selected (record (engine_at m m.selected) {
  trigger = if bit payload 5 then some (payload % 8, payload / 2 ^ 3 % 4) else none;
})

abbrev pub refuse : Machine → Machine × Bool
refuse m = (record m { host_fault = true }, false)

module _ (cfg : Config) where
  -- the new state, and whether the command was accepted
  unfoldable pub command : Machine → ℕ → Machine × Bool
  command m word =
      let payload = word % 2 ^ 24 in
      elim (host_op (word / 2 ^ 24)) [
        | none ↦ refuse m
        | some o ↦ if rejects cfg o m payload then refuse m else (effect o m payload, true)
      ]

  unfoldable pub program_word : Machine → ℕ → Machine × Bool
  program_word m word =
      let e = engine_at m m.selected in
      if e.running || (not e.writing || length e.program == cfg.program_words) then refuse m else (
        set_engine m m.selected (record e { program = e.program ++ (word % 2 ^ 32 ∷ []) }),
        true,
      )
