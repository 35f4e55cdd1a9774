-- ===== src/Engine/Cycles.antt =====
-- Successive cycles of one engine, and how long XFER, WAIT and the bounded waits take.
use ttihp_protocol_emulator.Prelude.{
  ℕ, zero, suc, ◌+◌, ◌-◌, ◌*◌, ◌%◌, ◌^◌, ◌≤◌, ◌<◌, Bool, true, false, ◌≡◌, ◌≢◌, none, some, List,
  [], ◌∷◌, arith, length, if◌then◌else◌, ◌==◌, sym, ◌∙◌, refl,
}
use native.Mathlib.Nat.{suc-mul}
use ttihp_protocol_emulator.Config.{Config}
use ttihp_protocol_emulator.Isa.{Opcode, Fields}
use ttihp_protocol_emulator.Isa.Valid.{invalid}
use ttihp_protocol_emulator.Engine.{Engine, Transfer}
use ttihp_protocol_emulator.Prelude.Bits.{bit}
use ttihp_protocol_emulator.Engine.Pads.{drive, next_out}
use ttihp_protocol_emulator.Engine.Fused.{transfer_step}
use ttihp_protocol_emulator.Engine.Issue.{issue_xfer}
use ttihp_protocol_emulator.Engine.Step.{step}
use ttihp_protocol_emulator.Engine.Control.{IsInProgress, transition_control, drive_control}

-- what an engine sees of the machine in a cycle
pub record Sample : Type 0 where
  pub sync2 : ℕ
  pub timestamp : ℕ
  pub tx_available : Bool
  pub rx_space : Bool

abbrev pub step_on : Config → Sample → Engine → Engine
step_on cfg s e = (step cfg s.sync2 s.timestamp s.tx_available s.rx_space e).0

unfoldable pub cycles : Config → List Sample → Engine → Engine
cycles cfg [] e = e
cycles cfg (s ∷ ss) e = cycles cfg ss (step_on cfg s e)

-- the cycles that a transfer still takes
abbrev pub cycles_left : Transfer → ℕ
cycles_left t = t.remaining + (2 * t.bits - 1 - t.transitions) * t.half_period

-- a running engine in the transfer `t`
pub record IsTransferring (cfg : Config) (t : Transfer) (e : Engine) : Type 0 where
  pub running : e.running ≡ true
  pub wait : e.wait ≡ 0
  pub transfer : e.transfer ≡ some t
  pub progress : IsInProgress cfg t

-- the engine `e'` after the transfer of `e`
pub record IsTransferred (e e' : Engine) : Type 0 where
  pub running : e'.running ≡ true
  pub transfer : e'.transfer ≡ none
  pub pc : e'.pc ≡ e.pc + 1
  pub completed : e'.completed ≡ (e.completed + 1) % 2 ^ 32

-- the transfer after one more cycle that is not its last
abbrev next : Transfer → Transfer
next t =
    if t.remaining == 1
    then record t { remaining = t.half_period; transitions = t.transitions + 1 }
    else record t { remaining = t.remaining - 1 }

one_period : (k h : ℕ) → 0 < k → k * h ≡ h + (k - 1) * h
one_period zero h p = absurd (omega arith)
one_period (suc k) h p = grind (arith, suc-mul)

module _ (cfg : Config) (s : Sample) (t : Transfer) (e : Engine) (h : IsTransferring cfg t e) where
  cycle_transfer : step_on cfg s e ≡ transfer_step cfg s.sync2 (record e { stalled = false }) t
  unfolding step
  cycle_transfer = ground arith

  last_cycle : cycles_left t ≡ 1 → IsTransferred e (step_on cfg s e)
  unfolding transfer_step
  last_cycle q = rw cycle_transfer (
      ground (
        arith,
        one_period (2 * t.bits - 1 - t.transitions) t.half_period,
        transition_control cfg s.sync2 (record e { stalled = false }) t,
      ))

  more_cycle :
      1 < cycles_left t
      → IsTransferring cfg (next t) (step_on cfg s e)
        × (cycles_left (next t) + 1 ≡ cycles_left t)
        × ((step_on cfg s e).pc ≡ e.pc)
        × ((step_on cfg s e).completed ≡ e.completed)
  unfolding transfer_step
  more_cycle q = rw cycle_transfer (
      ground (
        arith,
        one_period (2 * t.bits - 1 - t.transitions) t.half_period,
        transition_control cfg s.sync2 (record e { stalled = false }) t,
      ))

module _ (cfg : Config) where
  transfer_runs :
      (ss : List Sample) (t : Transfer) (e : Engine)
      → IsTransferring cfg t e
      → length ss ≡ cycles_left t
      → IsTransferred e (cycles cfg ss e)
  unfolding cycles
  transfer_runs [] t e h q = absurd (omega (arith, h.progress.due))
  transfer_runs (s ∷ []) t e h q = last_cycle cfg s t e h (sym q)
  transfer_runs (s ∷ s' ∷ ss) t e h q =
      let (h', left, pc, completed) = more_cycle cfg s t e h (omega arith) in
      let done = transfer_runs (s' ∷ ss) (next t) (step_on cfg s e) h' (omega arith) in
      record {
        running = done.running;
        transfer = done.transfer;
        pc = rw pc at done.pc;
        completed = rw completed at done.completed;
      }

  transfer_busy :
      (ss : List Sample) (t : Transfer) (e : Engine)
      → IsTransferring cfg t e
      → length ss < cycles_left t
      → ((cycles cfg ss e).transfer ≢ none) × ((cycles cfg ss e).pc ≡ e.pc)
  unfolding cycles
  transfer_busy [] t e h q = (ground (arith, h.transfer), refl)
  transfer_busy (s ∷ ss) t e h q =
      let (h', left, pc, completed) = more_cycle cfg s t e h (omega arith) in
      let (busy, same) = transfer_busy ss (next t) (step_on cfg s e) h' (omega arith) in
      (busy, same ∙ pc)

  issued :
      (e : Engine) (f : Fields)
      → invalid cfg Opcode.xfer f ≡ false
      → f.b ≤ 255
      → e.running ≡ true
      → e.wait ≡ 0
      → (issue_xfer cfg e f).0.running ≡ true
      → (t : Transfer) × IsTransferring cfg t (issue_xfer cfg e f).0
        × (cycles_left t ≡ 2 * f.a * f.b)
        × ((issue_xfer cfg e f).0.pc ≡ e.pc)
        × ((issue_xfer cfg e f).0.completed ≡ e.completed)
  unfolding issue_xfer invalid
  issued e f v byte r w ok =
      let clocked = drive e e.pins.clock (f.c % 2) in
      let facts = drive_control e e.pins.clock (f.c % 2) in
      let facts' = drive_control clocked clocked.pins.tx (next_out cfg clocked (bit f.c 2)) in
      (
        record { bits = f.a; half_period = f.b; flags = f.c; remaining = f.b; transitions = 0 },
        ground (arith, facts, facts'),
        ground (arith, one_period (2 * f.a) f.b),
        ground (arith, facts, facts'),
        ground (arith, facts, facts'),
      )

  module _ (e : Engine) (f : Fields) (ss : List Sample) (valid : invalid cfg Opcode.xfer f ≡ false)
      (byte : f.b ≤ 255) (running : e.running ≡ true) (ready : e.wait ≡ 0)
      (accepted : (issue_xfer cfg e f).0.running ≡ true) where
    -- An accepted valid XFER of `a` bits with half-period `b`, issued by a running engine that does not
    -- wait, is over 2ab cycles after its issue, whatever the inputs: the engine runs on at the next PC,
    -- with one more instruction completed.
    pub xfer_finishes :
        length ss ≡ 2 * f.a * f.b → IsTransferred e (cycles cfg ss (issue_xfer cfg e f).0)
    xfer_finishes q =
        let (t, h, left, pc, completed) = issued e f valid byte running ready accepted in
        let done = transfer_runs ss t (issue_xfer cfg e f).0 h (omega (arith, left)) in
        record {
          running = done.running;
          transfer = done.transfer;
          pc = rw pc at done.pc;
          completed = rw completed at done.completed;
        }

    -- In fewer than 2ab cycles after its issue an accepted valid XFER is in progress, with the PC still
    -- on it.
    pub xfer_not_early :
        length ss < 2 * f.a * f.b
        → ((cycles cfg ss (issue_xfer cfg e f).0).transfer ≢ none)
          × ((cycles cfg ss (issue_xfer cfg e f).0).pc ≡ e.pc)
    xfer_not_early q =
        let (t, h, left, pc, completed) = issued e f valid byte running ready accepted in
        let (busy, same) = transfer_busy ss t (issue_xfer cfg e f).0 h (omega (arith, left)) in
        (busy, same ∙ pc)
