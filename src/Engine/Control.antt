-- ===== src/Engine/Control.antt =====
-- The control invariant of an engine, and that `_step`, `_fail` and `_start` keep it.
use ttihp_protocol_emulator.Prelude.{
  ℕ, ◌*◌, ◌%◌, ◌^◌, ◌≤◌, ◌<◌, Bool, true, false, ◌≡◌, Option, none, some, arith, length, length-set,
  nonzero,
}
use ttihp_protocol_emulator.Prelude.Bits.{bit}
use ttihp_protocol_emulator.Config.{Config}
use ttihp_protocol_emulator.Isa.{Opcode, Fields, fields}
use ttihp_protocol_emulator.Isa.Valid.{invalid}
use ttihp_protocol_emulator.Engine.{Engine, Transfer, fail}
use ttihp_protocol_emulator.Engine.Pads.{drive, next_out, shift_tx, shift_out, shift_in}
use ttihp_protocol_emulator.Engine.Fused.{
  msb, move_clock, drive_late, drive_early, sample, transition, transfer_step,
}
use ttihp_protocol_emulator.Engine.Issue.{issue_xfer, execute, checked, issue}
use ttihp_protocol_emulator.Engine.Step.{step}

-- a transfer that has edges left, the next of them in 1 to 255 cycles
pub record IsInProgress (cfg : Config) (t : Transfer) : Type 0 where
  pub due : 0 < t.remaining
  pub within : t.remaining ≤ t.half_period
  pub period : t.half_period ≤ 255
  pub bits : t.bits ≤ cfg.width
  pub left : t.transitions < 2 * t.bits

abbrev pub TransferOk : Config → Option Transfer → Type 0
TransferOk cfg none = Unit
TransferOk cfg (some t) = IsInProgress cfg t

pub record IsControlled (cfg : Config) (e : Engine) : Type 0 where
  pub live : e.running ≡ true → e.fault ≡ 0
  pub released : e.running ≡ false → e.direction ≡ 0
  pub image : e.running ≡ true → e.committed ≡ true
  pub sealed : e.committed ≡ true → e.writing ≡ false
  pub filled : e.committed ≡ true → 0 < length e.program
  pub capacity : length e.program ≤ cfg.program_words
  pub four : length e.regs ≡ 4
  pub counted : e.completed < 2 ^ 32
  pub transfer : TransferOk cfg e.transfer

-- what `_drive` and the shifts leave alone
pub record SameControl (e e' : Engine) : Type 0 where
  pub running : e'.running ≡ e.running
  pub fault : e'.fault ≡ e.fault
  pub direction : e'.direction ≡ e.direction
  pub pins : e'.pins ≡ e.pins
  pub four : length e'.regs ≡ length e.regs
  pub pc : e'.pc ≡ e.pc
  pub completed : e'.completed ≡ e.completed
  pub wait : e'.wait ≡ e.wait
  pub committed : e'.committed ≡ e.committed
  pub writing : e'.writing ≡ e.writing
  pub program : e'.program ≡ e.program
  pub transfer : e'.transfer ≡ e.transfer
  pub ownership : e'.ownership ≡ e.ownership
  pub limit : e'.limit ≡ e.limit
  pub blocked : e'.blocked ≡ e.blocked
  pub repeat : e'.repeat ≡ e.repeat
  pub event : e'.event ≡ e.event

pub drive_control : (e : Engine) (pin value : ℕ) → SameControl e (drive e pin value)
unfolding drive
drive_control e pin value = ground arith

module _ (cfg : Config) (sync2 : ℕ) where
  pub shift_tx_control : (e : Engine) (msb : Bool) → SameControl e (shift_tx cfg e msb)
  unfolding shift_tx
  shift_tx_control e msb = grind (arith, length-set)

  pub shift_in_control :
      (e : Engine) (pin : ℕ) (msb : Bool) → SameControl e (shift_in cfg sync2 e pin msb)
  unfolding shift_in
  shift_in_control e pin msb = grind (arith, length-set)

  pub shift_out_control :
      (e : Engine) (pin : ℕ) (msb : Bool) → SameControl e (shift_out cfg e pin msb)
  unfolding shift_out drive shift_tx
  shift_out_control e pin msb = grind (arith, length-set)

  pub move_clock_control : (t : Transfer) (e : Engine) → SameControl e (move_clock t e)
  unfolding move_clock
  move_clock_control t e = drive_control e _ _

  pub drive_late_control : (t : Transfer) (e : Engine) → SameControl e (drive_late cfg t e)
  unfolding drive_late
  drive_late_control t e = ground (arith, shift_out_control e e.pins.tx (msb t))

  pub drive_early_control : (t : Transfer) (e : Engine) → SameControl e (drive_early cfg t e)
  unfolding drive_early
  drive_early_control t e = ground (
    arith,
    shift_tx_control e (msb t),
    drive_control (shift_tx cfg e (msb t)) e.pins.tx
        (next_out cfg (shift_tx cfg e (msb t)) (msb t)),
  )

  pub sample_control : (t : Transfer) (e : Engine) → SameControl e (sample cfg sync2 t e)
  unfolding sample
  sample_control t e = ground (arith, shift_in_control e e.pins.rx (msb t))

  pub transition_control : (e : Engine) (t : Transfer) → SameControl e (transition cfg sync2 e t)
  unfolding transition
  transition_control e t =
      let clocked = move_clock t e in
      let late = drive_late cfg t clocked in
      let early = drive_early cfg t late in
      ground (
        arith,
        move_clock_control t e,
        drive_late_control t clocked,
        drive_early_control t late,
        sample_control t early,
      )

module _ (cfg : Config) (sync2 timestamp : ℕ) (tx_available rx_space : Bool) where
  transfer_step-IsControlled :
      (e : Engine) (t : Transfer)
      → e.transfer ≡ some t
      → IsControlled cfg e
      → IsControlled cfg (transfer_step cfg sync2 e t)
  unfolding transfer_step
  transfer_step-IsControlled e t q h = ground (arith, transition_control cfg sync2 e t)

  issue_xfer-IsControlled :
      (e : Engine) (f : Fields)
      → invalid cfg Opcode.xfer f ≡ false
      → f.b ≤ 255
      → IsControlled cfg e
      → IsControlled cfg (issue_xfer cfg e f).0
  unfolding issue_xfer invalid
  issue_xfer-IsControlled e f v byte h =
      let clocked = drive e e.pins.clock (f.c % 2) in
      ground (
        arith,
        drive_control e e.pins.clock (f.c % 2),
        drive_control clocked clocked.pins.tx (next_out cfg clocked (bit f.c 2)),
      )

  execute-IsControlled :
      (o : Opcode) (e : Engine) (f : Fields)
      → invalid cfg o f ≡ false
      → f.b ≤ 255
      → e.running ≡ true
      → e.transfer ≡ none
      → IsControlled cfg e
      → IsControlled cfg (execute cfg sync2 timestamp tx_available rx_space o e f).0
  unfolding execute invalid
  execute-IsControlled Opcode.xfer e f v byte r q h = issue_xfer-IsControlled e f v byte h
  execute-IsControlled Opcode.out_pin e f v byte r q h =
      ground (arith, shift_out_control cfg sync2 e f.a (nonzero f.c))
  execute-IsControlled Opcode.in_pin e f v byte r q h =
      ground (arith, shift_in_control cfg sync2 e f.a (nonzero f.c))
  execute-IsControlled Opcode.nop e f v byte r q h = grind (arith, length-set)
  execute-IsControlled _ e f v byte r q h = grind (arith, length-set)

  issue-IsControlled :
      (e : Engine)
      → e.running ≡ true
      → e.transfer ≡ none
      → IsControlled cfg e
      → IsControlled cfg (issue cfg sync2 timestamp tx_available rx_space e).0
  unfolding issue checked fail fields
  issue-IsControlled e r q h = grind (arith, execute-IsControlled)

  -- A cycle keeps the control invariant, whatever the engine executes.
  pub step-IsControlled :
      (e : Engine)
      → IsControlled cfg e
      → IsControlled cfg (step cfg sync2 timestamp tx_available rx_space e).0
  unfolding step
  step-IsControlled e h = grind (arith, transfer_step-IsControlled, issue-IsControlled)
