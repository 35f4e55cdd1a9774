-- ===== src/Engine.antt =====
-- `Transfer` and `Engine` of test/model/reference.py, with `_fail` and `_start`. A method that
-- changes the engine it is given returns the new engine.
pub mod Fault
pub mod Pads
pub mod Fused
pub mod Issue
pub mod Step
pub mod Frame
pub mod Control
pub mod Latches
pub mod Ownership
pub mod Cycles
pub mod Waiting
use ttihp_protocol_emulator.Prelude.{ℕ, Bool, true, false, Option, none, List, [], ◌∷◌}

-- A fused transfer in progress.
pub record Transfer : Type 0 where
  pub bits : ℕ
  pub half_period : ℕ
  pub flags : ℕ
  pub remaining : ℕ
  pub transitions : ℕ

-- The pin numbers that PINS sets.
pub record Pins : Type 0 where
  pub clock : ℕ
  pub tx : ℕ
  pub rx : ℕ

pub record Engine : Type 0 where
  pub program : List ℕ
  pub committed : Bool
  pub writing : Bool
  pub running : Bool
  pub stalled : Bool
  pub fault : ℕ
  pub pc : ℕ
  pub regs : List ℕ
  pub tx : List ℕ
  pub rx : List ℕ
  pub ownership : ℕ
  pub open_drain : ℕ
  pub values : ℕ
  pub direction : ℕ
  pub repeat : ℕ
  pub wait : ℕ
  pub limit : ℕ
  pub blocked : ℕ
  pub event : Bool
  pub trigger : Option (ℕ × ℕ)
  pub pins : Pins
  pub completed : ℕ
  pub transfer : Option Transfer

abbrev pub no_pins : Pins
no_pins = record { clock = 0; tx = 0; rx = 0 }

-- `Engine()`
abbrev pub fresh : Engine
fresh = record {
  program = [];
  committed = false;
  writing = false;
  running = false;
  stalled = false;
  fault = 0;
  pc = 0;
  regs = 0 ∷ 0 ∷ 0 ∷ 0 ∷ [];
  tx = [];
  rx = [];
  ownership = 0;
  open_drain = 0;
  values = 0;
  direction = 0;
  repeat = 0;
  wait = 0;
  limit = 65535;
  blocked = 0;
  event = false;
  trigger = none;
  pins = no_pins;
  completed = 0;
  transfer = none;
}

-- What an engine asks of the queues and mailboxes in a cycle: a pop of its TX queue, a push to its
-- RX queue, and the engines that it signals.
pub record Accepted : Type 0 where
  pub pop : Bool
  pub push : Bool
  pub signal : ℕ

-- `False, False, 0`
abbrev pub nothing : Accepted
nothing = record { pop = false; push = false; signal = 0 }

-- `_fail`
unfoldable pub fail : Engine → ℕ → Engine
fail e code = record e {
  fault = code;
  running = false;
  stalled = false;
  direction = 0;
  transfer = none;
}

-- `_start`
unfoldable pub start : Engine → Engine
start e = record e {
  running = true;
  stalled = false;
  pc = 0;
  values = 0;
  direction = 0;
  repeat = 0;
  wait = 0;
  blocked = 0;
  completed = 0;
  regs = 0 ∷ 0 ∷ 0 ∷ 0 ∷ [];
  limit = 65535;
  pins = no_pins;
  transfer = none;
}
