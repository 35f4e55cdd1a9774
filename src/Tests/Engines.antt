-- ===== src/Tests/Engines.antt =====
-- The theorems on one engine at concrete inputs: a two-bit transfer and a WAITPIN.
use ttihp_protocol_emulator.Prelude.{ℕ, ◌≡◌, ◌≢◌, refl, true, false, none, List, [], ◌∷◌, arith}
use ttihp_protocol_emulator.Prelude.Bits.{bit, and_not}
use ttihp_protocol_emulator.Isa.{Opcode, Fields, fields, decode}
use ttihp_protocol_emulator.Isa.Valid.{invalid}
use ttihp_protocol_emulator.Engine.{Engine, fresh}
use ttihp_protocol_emulator.Engine.Fault
use ttihp_protocol_emulator.Engine.Pads.{drive, next_out}
use ttihp_protocol_emulator.Engine.Issue.{issue_xfer}
use ttihp_protocol_emulator.Engine.Step.{step}
use ttihp_protocol_emulator.Engine.Frame.{Keeps, Allowed, step-Keeps}
use ttihp_protocol_emulator.Engine.Cycles.{
  Sample, cycles, IsTransferred, xfer_finishes, xfer_not_early,
}
use ttihp_protocol_emulator.Engine.Waiting.{IsAtWaitPin, waitpin_waits, waitpin_times_out}
use ttihp_protocol_emulator.Tests.Scenario.{flagship}

-- pin levels `pins`, with a word to pop and room to push
abbrev sample_of : ℕ → Sample
sample_of pins = record { sync2 = pins; timestamp = 0; tx_available = true; rx_space = true }

-- an engine that drives pins 0 and 1 and samples pin 2
abbrev sender : Engine
sender = record fresh {
  running = true;
  committed = true;
  ownership = 3;
  direction = 3;
  program = 0x11020319 ∷ [];
  regs = 0xA5 ∷ 0 ∷ 0 ∷ 0 ∷ [];
  pins = record { clock = 0; tx = 1; rx = 2 };
}

-- XFER 2, 3, 25: idle high, drives and samples
abbrev xfer_fields : Fields
xfer_fields = record { op = 17; a = 2; b = 3; c = 25; imm24 = 0x020319; imm16 = 0x0319 }

abbrev issued : Engine
issued = (issue_xfer flagship sender xfer_fields).0

xfer_valid : invalid flagship Opcode.xfer xfer_fields ≡ false
unfolding invalid
xfer_valid = refl

xfer_accepted : issued.running ≡ true
unfolding issue_xfer drive next_out bit and_not
xfer_accepted = refl

abbrev twelve : List Sample
twelve =
    sample_of 0
    ∷ sample_of 0
    ∷ sample_of 4
    ∷ sample_of 0
    ∷ sample_of 0
    ∷ sample_of 0
    ∷ sample_of 4
    ∷ sample_of 4
    ∷ sample_of 4
    ∷ sample_of 0
    ∷ sample_of 0
    ∷ sample_of 0
    ∷ []

xfer_finishes_example : IsTransferred sender (cycles flagship twelve issued)
xfer_finishes_example =
    xfer_finishes flagship sender xfer_fields twelve xfer_valid (omega arith) refl refl
      xfer_accepted refl

xfer_not_early_example :
    ((cycles flagship (sample_of 0 ∷ sample_of 4 ∷ []) issued).transfer ≢ none)
    × ((cycles flagship (sample_of 0 ∷ sample_of 4 ∷ []) issued).pc ≡ 0)
xfer_not_early_example =
    xfer_not_early flagship sender xfer_fields (sample_of 0 ∷ sample_of 4 ∷ []) xfer_valid
      (omega arith) refl refl xfer_accepted (omega arith)

-- WAITPIN 2, 1 with LIMIT 3
abbrev waiter : Engine
waiter = record fresh { running = true; committed = true; program = 0x0D020100 ∷ []; limit = 3 }

abbrev wait_fields : Fields
wait_fields = record { op = 13; a = 2; b = 1; c = 0; imm24 = 0x020100; imm16 = 0x0100 }

waiter-IsAtWaitPin : IsAtWaitPin flagship wait_fields 0 3 waiter
unfolding fields decode invalid
waiter-IsAtWaitPin = record {
  running = refl;
  wait = refl;
  transfer = refl;
  committed = refl;
  inside = omega arith;
  word = refl;
  op = refl;
  valid = refl;
  blocked = refl;
  limit = refl;
  below = omega arith;
}

low_misses : ◌≢◌ {A = ℕ} 0 1
low_misses = omega arith

waitpin_waits_example :
    IsAtWaitPin flagship wait_fields 2 3 (cycles flagship (sample_of 0 ∷ sample_of 1 ∷ []) waiter)
    × ((cycles flagship (sample_of 0 ∷ sample_of 1 ∷ []) waiter).pc ≡ 0)
unfolding bit
waitpin_waits_example =
    waitpin_waits flagship wait_fields (sample_of 0 ∷ sample_of 1 ∷ []) waiter 0 3
      waiter-IsAtWaitPin (low_misses, (low_misses, tt)) (omega arith)

waitpin_times_out_example :
    let before = cycles flagship (sample_of 0 ∷ []) waiter in
    let after = cycles flagship (sample_of 1 ∷ sample_of 2 ∷ []) before in
    ((before.running ≡ true) × (before.blocked ≡ 1) × (before.fault ≡ 0) × (before.pc ≡ 0))
    × ((after.fault ≡ Fault.timeout)
        × (after.running ≡ false)
        × (after.direction ≡ 0)
        × (after.pc ≡ 0))
unfolding bit
waitpin_times_out_example =
    waitpin_times_out flagship wait_fields (sample_of 0 ∷ []) (sample_of 1 ∷ sample_of 2 ∷ [])
      waiter 0 3 waiter-IsAtWaitPin (low_misses, tt) (low_misses, (low_misses, tt)) (omega arith)
      refl

step-Keeps_example :
    Keeps sender (step flagship 4 7 true true sender).0
    × Allowed true true (step flagship 4 7 true true sender).1
step-Keeps_example = step-Keeps flagship 4 7 true true sender
