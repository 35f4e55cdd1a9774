-- ===== src/Machine.antt =====
-- The state of `Reference` in test/model/reference.py, and its `reset`.
pub mod Read
pub mod Outputs
pub mod Command
pub mod Ports
pub mod Mover
pub mod Queues
pub mod Tick
pub mod Acts
pub mod HostSide
pub mod Rule
pub mod Reach
pub mod Handshake
pub mod Reading
pub mod Atomic
pub mod Loader
pub mod Writing
pub mod Isolation
use ttihp_protocol_emulator.Prelude.{ℕ, Bool, false, Option, none, List, get_or, replicate}
use ttihp_protocol_emulator.Config.{Config}
use ttihp_protocol_emulator.Engine.{Engine, fresh}

-- A descriptor of the mover: the destination, and how many words are still to go.
pub record Route : Type 0 where
  pub dest : ℕ
  pub count : ℕ

-- A set of engine numbers by its membership test.
abbrev pub EngineSet : Type 0
EngineSet = ℕ → Bool

abbrev pub no_engines : EngineSet
no_engines _ = false

pub record Machine : Type 0 where
  pub engines : List Engine
  pub timestamp : ℕ
  pub sync1 : ℕ
  pub sync2 : ℕ
  pub previous_pins : ℕ
  pub selected : ℕ
  pub read_select : ℕ
  pub host_fault : Bool
  pub routes : List (Option Route)
  pub round_robin : ℕ
  pub window : ℕ
  pub write_index : ℕ
  pub write_word : ℕ
  pub read_index : ℕ
  pub read_word : Option ℕ
  pub read_engine : Option ℕ
  pub starts : EngineSet
  pub stops : EngineSet

-- `self.engines[i]`; out of range, where Python raises `IndexError`, an engine at rest
abbrev pub engine_at : Machine → ℕ → Engine
engine_at m i = get_or m.engines i fresh

abbrev pub route_at : Machine → ℕ → Option Route
route_at m i = get_or m.routes i none

unfoldable pub reset : Config → Machine
reset cfg = record {
  engines = replicate cfg.engines fresh;
  timestamp = 0;
  sync1 = 0;
  sync2 = 0;
  previous_pins = 0;
  selected = 0;
  read_select = 0;
  host_fault = false;
  routes = replicate cfg.engines none;
  round_robin = 0;
  window = 0;
  write_index = 0;
  write_word = 0;
  read_index = 0;
  read_word = none;
  read_engine = none;
  starts = no_engines;
  stops = no_engines;
}
