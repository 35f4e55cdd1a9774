-- ===== src/Engine/Frame.antt =====
-- What a cycle of an engine leaves alone, and what it may ask of the queues.
use ttihp_protocol_emulator.Prelude.{ℕ, Bool, true, false, ◌≡◌, arith}
use ttihp_protocol_emulator.Config.{Config}
use ttihp_protocol_emulator.Isa.{Opcode, Fields}
use ttihp_protocol_emulator.Engine.{Engine, Transfer, Accepted, fail}
use ttihp_protocol_emulator.Engine.Pads.{drive, shift_tx, shift_out, shift_in}
use ttihp_protocol_emulator.Engine.Fused.{
  move_clock, drive_late, drive_early, sample, transition, transfer_step,
}
use ttihp_protocol_emulator.Engine.Issue.{issue_xfer, execute, checked, issue}
use ttihp_protocol_emulator.Engine.Step.{step}

-- The image, the pin assignment, the trigger and the queues.
pub record Keeps (e e' : Engine) : Type 0 where
  pub program : e'.program ≡ e.program
  pub committed : e'.committed ≡ e.committed
  pub writing : e'.writing ≡ e.writing
  pub tx : e'.tx ≡ e.tx
  pub rx : e'.rx ≡ e.rx
  pub ownership : e'.ownership ≡ e.ownership
  pub open_drain : e'.open_drain ≡ e.open_drain
  pub trigger : e'.trigger ≡ e.trigger

-- A pop wants a word in the TX queue, a push room in the RX queue, and never both at once.
pub record Allowed (tx_available rx_space : Bool) (acc : Accepted) : Type 0 where
  pub pop : acc.pop ≡ true → tx_available ≡ true
  pub push : acc.push ≡ true → rx_space ≡ true
  pub one : acc.pop ≡ true → acc.push ≡ false

pub drive-Keeps : (e : Engine) (pin value : ℕ) → Keeps e (drive e pin value)
unfolding drive
drive-Keeps e pin value = ground arith

module _ (cfg : Config) where
  pub shift_tx-Keeps : (e : Engine) (msb : Bool) → Keeps e (shift_tx cfg e msb)
  unfolding shift_tx
  shift_tx-Keeps e msb = ground arith

  pub shift_in-Keeps :
      (sync2 : ℕ) (e : Engine) (pin : ℕ) (msb : Bool) → Keeps e (shift_in cfg sync2 e pin msb)
  unfolding shift_in
  shift_in-Keeps sync2 e pin msb = ground arith

module _ (cfg : Config) (sync2 timestamp : ℕ) (tx_available rx_space : Bool) where
  transition-Keeps : (e : Engine) (t : Transfer) → Keeps e (transition cfg sync2 e t)
  unfolding transition move_clock drive_late drive_early sample drive shift_tx shift_out shift_in
  transition-Keeps e t = ground arith

  transfer_step-Keeps : (e : Engine) (t : Transfer) → Keeps e (transfer_step cfg sync2 e t)
  unfolding transfer_step
  transfer_step-Keeps e t = ground (arith, transition-Keeps e t)

  execute-Keeps :
      (o : Opcode) (e : Engine) (f : Fields)
      → Keeps e (execute cfg sync2 timestamp tx_available rx_space o e f).0
        × Allowed tx_available rx_space (execute cfg sync2 timestamp tx_available rx_space o e f).1
  unfolding execute issue_xfer shift_out shift_in drive shift_tx
  execute-Keeps Opcode.nop e f = ground arith
  execute-Keeps _ e f = ground arith

  issue-Keeps :
      (e : Engine)
      → Keeps e (issue cfg sync2 timestamp tx_available rx_space e).0
        × Allowed tx_available rx_space (issue cfg sync2 timestamp tx_available rx_space e).1
  unfolding issue checked fail
  issue-Keeps e = grind (arith, execute-Keeps)

  -- A cycle keeps an engine's image, its owned and open-drain pins, trigger and queues; it asks for a pop only where
  -- a TX word is available, for a push only where the RX queue has space, and never for both.
  pub step-Keeps :
      (e : Engine)
      → Keeps e (step cfg sync2 timestamp tx_available rx_space e).0
        × Allowed tx_available rx_space (step cfg sync2 timestamp tx_available rx_space e).1
  unfolding step
  step-Keeps e = grind (arith, transfer_step-Keeps, issue-Keeps)
