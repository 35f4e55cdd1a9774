-- ===== src/Pio.antt =====
-- The PIO block of host/pio/sim.py: its configuration, its state machines and its registers.
pub mod Helpers
pub mod Execute
pub mod Clock
pub mod Valid
pub mod Pins
pub mod Shifts
pub mod Loops
use ttihp_protocol_emulator.Prelude.{
  ℕ, zero, suc, ◌+◌, ◌-◌, ◌*◌, ◌/◌, ◌%◌, ◌^◌, bit_or, Bool, true, false, Option, none, some, List,
  [], ◌∷◌, ◌++◌, length, nonempty, popleft, get_or, leb, ◌==◌, if◌then◌else◌, to_ℕ,
}
use ttihp_protocol_emulator.Prelude.Bits.{bit}

abbrev pub m32 : ℕ
m32 = 0xffff_ffff

-- `value & _mask(n)`
abbrev pub masked : ℕ → ℕ → ℕ
masked value n = value % 2 ^ (if leb 32 n then 32 else n)

unfoldable pub rotate_right : ℕ → ℕ → ℕ
rotate_right value n =
    let k = n % 32 in
    if k == 0 then value % 2 ^ 32 else bit_or (value / 2 ^ k) (value * 2 ^ (32 - k)) % 2 ^ 32

-- The first `n` rounds of the loop of `bit_reverse`.
unfoldable pub reversed : ℕ → ℕ → ℕ
reversed value zero = 0
reversed value (suc n) = bit_or (reversed value n * 2) (to_ℕ (bit value n))

unfoldable pub bit_reverse : ℕ → ℕ
bit_reverse value = reversed value 32

-- Each place that raises `PioError`, and the errors of the language: an index out of range and a
-- shift by a negative count.
pub data PioError : Type 0 where
  reserved_status irq_mode wait_source in_source fifo_register push_pull mov_source : PioError
  mov_operation mov_pindirs set_destination does_not_fit index_error negative_shift : PioError

pub record StateMachineConfig : Type 0 where
  pub clkdiv : ℕ
  pub wrap_bottom : ℕ
  pub wrap_top : ℕ
  pub sideset_count : ℕ
  pub sideset_opt : Bool
  pub sideset_pindir : Bool
  pub sideset_base : ℕ
  pub out_base : ℕ
  pub out_count : ℕ
  pub set_base : ℕ
  pub set_count : ℕ
  pub in_base : ℕ
  pub in_count : ℕ
  pub jmp_pin : ℕ
  pub in_shift_right : Bool
  pub out_shift_right : Bool
  pub autopush : Bool
  pub autopull : Bool
  pub push_thresh : ℕ
  pub pull_thresh : ℕ
  pub fjoin_tx : Bool
  pub fjoin_rx : Bool
  pub status_sel : ℕ
  pub status_n : ℕ

abbrev pub default_config : StateMachineConfig
default_config = record {
  clkdiv = 1;
  wrap_bottom = 0;
  wrap_top = 31;
  sideset_count = 0;
  sideset_opt = false;
  sideset_pindir = false;
  sideset_base = 0;
  out_base = 0;
  out_count = 0;
  set_base = 0;
  set_count = 5;
  in_base = 0;
  in_count = 0;
  jmp_pin = 0;
  in_shift_right = false;
  out_shift_right = false;
  autopush = false;
  autopull = false;
  push_thresh = 32;
  pull_thresh = 32;
  fjoin_tx = false;
  fjoin_rx = false;
  status_sel = 0;
  status_n = 0;
}

pub record StateMachine : Type 0 where
  pub index : ℕ
  pub config : StateMachineConfig
  pub enabled : Bool
  pub pc : ℕ
  pub x : ℕ
  pub y : ℕ
  pub isr : ℕ
  pub osr : ℕ
  pub isr_count : ℕ
  pub osr_count : ℕ
  pub delay : ℕ
  pub div_count : ℕ
  pub forced : Option ℕ
  pub exec_next : Option ℕ
  pub tx : List ℕ
  pub rx : List ℕ
  pub stalled : Bool
  pub rxstall : Bool
  pub txstall : Bool
  pub txover : Bool
  pub executed : ℕ
  pub last_pc : Option ℕ

-- What a state machine reads and writes of its block: the chip, the instructions, the IRQ flags and
-- the pins.
pub record Shared : Type 0 where
  pub rp2350 : Bool
  pub mem : List ℕ
  pub irq : ℕ
  pub out : ℕ
  pub oe : ℕ

-- A state machine with its block, as a method sees them.
pub record Core : Type 0 where
  pub sm : StateMachine
  pub block : Shared

pub record PioBlock : Type 0 where
  pub shared : Shared
  pub gpio_base : ℕ
  pub input_sync_bypass : ℕ
  pub sync1 : ℕ
  pub sync2 : ℕ
  pub cycle : ℕ
  pub sms : List StateMachine

unfoldable pub reset_state : StateMachine → StateMachine
reset_state sm = record sm {
  pc = 0;
  x = 0;
  y = 0;
  isr = 0;
  osr = 0;
  isr_count = 0;
  osr_count = 32;
  delay = 0;
  div_count = 0;
  forced = none;
  exec_next = none;
  tx = [];
  rx = [];
  stalled = false;
  rxstall = false;
  txstall = false;
  txover = false;
  executed = 0;
  last_pc = none;
}

-- `StateMachine(block, i)`
abbrev pub fresh_machine : ℕ → StateMachine
fresh_machine i = record {
  index = i;
  config = default_config;
  enabled = false;
  pc = 0;
  x = 0;
  y = 0;
  isr = 0;
  osr = 0;
  isr_count = 0;
  osr_count = 32;
  delay = 0;
  div_count = 0;
  forced = none;
  exec_next = none;
  tx = [];
  rx = [];
  stalled = false;
  rxstall = false;
  txstall = false;
  txover = false;
  executed = 0;
  last_pc = none;
}

unfoldable pub restart : StateMachine → StateMachine
restart sm = record sm {
  isr = 0;
  isr_count = 0;
  osr_count = 32;
  delay = 0;
  div_count = 0;
  stalled = false;
  exec_next = none;
}

unfoldable pub configure : StateMachineConfig → StateMachine → StateMachine
unfolding restart
configure config sm = record (restart (record sm { config = config })) { tx = []; rx = [] }

abbrev pub tx_depth : StateMachineConfig → ℕ
tx_depth c = if c.fjoin_tx then 8 else if c.fjoin_rx then 0 else 4

abbrev pub rx_depth : StateMachineConfig → ℕ
rx_depth c = if c.fjoin_rx then 8 else if c.fjoin_tx then 0 else 4

-- The CPU's side. `put` also returns whether the word was taken.
unfoldable pub put : ℕ → StateMachine → StateMachine × Bool
put word sm =
    if leb (tx_depth sm.config) (length sm.tx)
    then (record sm { txover = true }, false)
    else (record sm { tx = sm.tx ++ word % 2 ^ 32 ∷ [] }, true)

unfoldable pub get : StateMachine → StateMachine × Option ℕ
get sm =
    if nonempty sm.rx
    then (record sm { rx = popleft sm.rx }, some (get_or sm.rx 0 0))
    else (sm, none)

unfoldable pub force : ℕ → StateMachine → StateMachine
force instr sm = record sm { forced = some (instr % 2 ^ 16) }
