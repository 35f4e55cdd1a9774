-- ===== src/Engine/Ownership.antt =====
-- The pins that an engine latches are pins that it owns, at every pin `p`.
use ttihp_protocol_emulator.Prelude.{
  bit_or, ℕ, ◌%◌, ◌^◌, Bool, true, false, ◌≡◌, none, arith, nonzero, if◌then◌else◌,
}
use native.Mathlib.Decide.{ℕ_discrete}
use ttihp_protocol_emulator.Prelude.Bits.{bit, and_not, bit-bit_or, bit-pow, subset_of-and_not}
use ttihp_protocol_emulator.Config.{Config}
use ttihp_protocol_emulator.Isa.{Opcode, Fields}
use ttihp_protocol_emulator.Engine.{Engine, fail}
use ttihp_protocol_emulator.Engine.Pads.{drive, next_out, shift_out}
use ttihp_protocol_emulator.Engine.Issue.{issue_xfer, unowned, execute, checked, issue}
use ttihp_protocol_emulator.Engine.Control.{drive_control}
use ttihp_protocol_emulator.Engine.Step.{step}
use ttihp_protocol_emulator.Engine.Latches.{
  IsOwner, drive-IsOwner, shift_tx-IsOwner, shift_in-IsOwner, transfer_step-IsOwner,
}

-- What the ownership test of XFER establishes.
required_owned :
    (clock tx c owned : ℕ)
    → and_not (bit_or (2 ^ clock) (if bit c 3 then 2 ^ tx else 0)) owned ≡ 0
    → (bit owned clock ≡ true) × (bit c 3 ≡ true → bit owned tx ≡ true)
required_owned clock tx c owned h =
    let required = bit_or (2 ^ clock) (if bit c 3 then 2 ^ tx else 0) in
    (
      ground (
        arith,
        subset_of-and_not required owned clock h,
        bit-bit_or (2 ^ clock) (if bit c 3 then 2 ^ tx else 0) clock,
        bit-pow clock clock,
      ),
      λ q. ground (
        arith,
        subset_of-and_not required owned tx h,
        bit-bit_or (2 ^ clock) (if bit c 3 then 2 ^ tx else 0) tx,
        bit-pow tx tx,
      ),
    )

module _ (cfg : Config) (sync2 timestamp : ℕ) (tx_available rx_space : Bool) (p : ℕ) where
  issue_xfer-IsOwner : (e : Engine) (f : Fields) → IsOwner p e → IsOwner p (issue_xfer cfg e f).0
  unfolding issue_xfer
  issue_xfer-IsOwner e f h =
      let required = bit_or (2 ^ e.pins.clock) (if bit f.c 3 then 2 ^ e.pins.tx else 0) in
      elim (ℕ_discrete (and_not required e.ownership) 0) [
        | no bad ↦ ground arith
        | yes ok ↦
            let (clock_owned, tx_owned) =
              required_owned e.pins.clock e.pins.tx f.c e.ownership ok in
            let clocked = drive e e.pins.clock (f.c % 2) in
            let same = drive_control e e.pins.clock (f.c % 2) in
            let h' : IsOwner p clocked = drive-IsOwner p e h e.pins.clock _ clock_owned in
            let first = next_out cfg clocked (bit f.c 2) in
            let h'' : bit f.c 3 ≡ true → IsOwner p (drive clocked clocked.pins.tx first) = λ q.
              drive-IsOwner p clocked h' clocked.pins.tx first
                (rw (same.ownership, same.pins) (tx_owned q)) in
            ground (
              arith,
              ok,
              clock_owned,
              tx_owned,
              h',
              h'',
              same,
              drive_control clocked clocked.pins.tx first,
            )
      ]

  execute-IsOwner :
      (o : Opcode) (e : Engine) (f : Fields)
      → unowned cfg sync2 timestamp tx_available rx_space o e f ≡ false
      → e.transfer ≡ none
      → IsOwner p e
      → IsOwner p (execute cfg sync2 timestamp tx_available rx_space o e f).0
  unfolding execute unowned
  execute-IsOwner Opcode.xfer e f u q h = issue_xfer-IsOwner e f h
  execute-IsOwner Opcode.set e f u q h =
      ground (arith, subset_of-and_not f.imm24 e.ownership p (ground arith))
  execute-IsOwner Opcode.dir e f u q h =
      ground (arith, subset_of-and_not f.imm24 e.ownership p (ground arith))
  execute-IsOwner Opcode.out_pin e f u q h =
      let h' : IsOwner p (drive e f.a (next_out cfg e (nonzero f.c))) =
        drive-IsOwner p e h f.a (next_out cfg e (nonzero f.c)) (ground arith) in
      let h'' : IsOwner p (shift_out cfg e f.a (nonzero f.c)) =
        unfold shift_out in shift_tx-IsOwner p _ h' cfg (nonzero f.c) in
      ground (arith, h'')
  execute-IsOwner Opcode.in_pin e f u q h =
      ground (arith, shift_in-IsOwner p e h cfg sync2 f.a (nonzero f.c))
  execute-IsOwner Opcode.nop e f u q h = ground arith
  execute-IsOwner _ e f u q h = ground arith

  issue-IsOwner :
      (e : Engine)
      → e.transfer ≡ none
      → IsOwner p e
      → IsOwner p (issue cfg sync2 timestamp tx_available rx_space e).0
  unfolding issue checked fail
  issue-IsOwner e q h = grind (arith, execute-IsOwner)

  -- A cycle keeps an engine on its own pins.
  pub step-IsOwner :
      (e : Engine) → IsOwner p e → IsOwner p (step cfg sync2 timestamp tx_available rx_space e).0
  unfolding step
  step-IsOwner e h = grind (arith, transfer_step-IsOwner, issue-IsOwner)
