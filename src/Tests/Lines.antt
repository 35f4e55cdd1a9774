-- ===== src/Tests/Lines.antt =====
-- The theorems on the line unit at concrete inputs.
use ttihp_protocol_emulator.Prelude.{
  none, ◌+◌, ◌*◌, ◌^◌, arith, ◌≡◌, refl, true, false, some, [], ◌∷◌,
}
use ttihp_protocol_emulator.Prelude.Bits.{bit}
use ttihp_protocol_emulator.Engine.{fresh}
use ttihp_protocol_emulator.LineUnit.Transfer.{LineEngine, LineTransfer}
use ttihp_protocol_emulator.LineUnit.Instructions.{issue_line}
use ttihp_protocol_emulator.LineUnit.Owned.{transfer_cycles, issue_line_owned}
use ttihp_protocol_emulator.LineUnit.Owned.Bits.{SamePads}
use ttihp_protocol_emulator.Engine.{Transfer}
use ttihp_protocol_emulator.Tests.Scenario.{flagship}
use ttihp_protocol_emulator.LineUnit.State.{LineState, fresh_line, tick_now, set_timing}
use ttihp_protocol_emulator.LineUnit.Mirror.{Mirrors, zero-Mirrors, crc_of, crc_of-Mirrors}
use ttihp_protocol_emulator.LineUnit.Ticks.{ticks, elapse, ltim_ticks}

-- "1" in ASCII, the lowest bit first, with the preset of CRC-16/ARC
crc_of-Mirrors_example :
    Mirrors
      (crc_of 1 true 0 (true ∷ false ∷ false ∷ false ∷ true ∷ true ∷ false ∷ false ∷ []))
      (crc_of 1 false 0 (true ∷ false ∷ false ∷ false ∷ true ∷ true ∷ false ∷ false ∷ []))
crc_of-Mirrors_example =
    crc_of-Mirrors 1 (true ∷ false ∷ false ∷ false ∷ true ∷ true ∷ false ∷ false ∷ []) 0 0
      zero-Mirrors

-- LTIM with half-period 10, fraction 128, delay 3
abbrev timed : LineState
timed = record fresh_line { run = true; count = 3; period = 10; frac = 128 }

timing : set_timing fresh_line (3 * 2 ^ 16 + 128 * 2 ^ 8 + 10) ≡ some timed
unfolding set_timing
timing = refl

ltim_ticks_example : (ticks 33 timed ≡ 3) × (tick_now (elapse 33 timed) ≡ true)
ltim_ticks_example =
    ltim_ticks fresh_line timed 10 128 3 33 3 (omega arith) (omega arith) (omega arith) timing refl

-- Stuffing of either polarity after five equal bits, where five ones were sent; the pin 2 is low.
abbrev stuffing : LineState
stuffing = record fresh_line { cfg = 76; srun = 5; slast = 1 }

abbrev sender : LineEngine
sender = record {
  engine = record fresh {
    ownership = 2;
    regs = 3 ∷ 0 ∷ 0 ∷ 0 ∷ [];
    pins = record { clock = 0; tx = 1; rx = 2 };
  };
  line = stuffing;
  moving = some (record { remaining = 4; flags = 8 });
}

abbrev receiver : LineEngine
receiver = record {
  engine = record fresh { pins = record { clock = 0; tx = 1; rx = 2 } };
  line = stuffing;
  moving = some (record { remaining = 4; flags = 16 });
}

abbrev out : LineTransfer
out = record { remaining = 4; flags = 8 }

abbrev back : LineTransfer
back = record { remaining = 4; flags = 16 }

flags : (bit 8 3 ≡ true) × (bit 16 4 ≡ true) × (bit 16 3 ≡ false) × (bit 8 4 ≡ false)
unfolding bit
flags = (refl, refl, refl, refl)

-- the last cycle of a half-period of a classic transfer, and a line XFER of four bits on pin 1
abbrev classic : Transfer
classic = record { bits = 2; half_period = 3; flags = 72; remaining = 1; transitions = 3 }

abbrev idle_sender : LineEngine
idle_sender = record {
  engine = sender.engine;
  line = record stuffing { run = true };
  moving = none;
}

line_issued :
    (issue_line flagship idle_sender 4 0 40).moving ≡ some (record { remaining = 4; flags = 40 })
unfolding issue_line bit
line_issued = refl

-- the pin 0, which the engine does not own, in two cycles of the transfer
issue_line_owned_example :
    SamePads 0 idle_sender.engine
      (transfer_cycles flagship (0 ∷ 4 ∷ []) (issue_line flagship idle_sender 4 0 40)).engine
unfolding bit
issue_line_owned_example =
    issue_line_owned flagship idle_sender 4 0 40 0 (record { remaining = 4; flags = 40 })
      (0 ∷ 4 ∷ []) line_issued refl (λ half. cc)
