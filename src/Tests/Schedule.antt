-- ===== src/Tests/Schedule.antt =====
-- The path check on the lockstep program.
use ttihp_protocol_emulator.Prelude.{◌≡◌, ◌≢◌, refl, true, false, [], ◌∷◌}
use ttihp_protocol_emulator.Prelude.Bits.{bit}
use ttihp_protocol_emulator.Prelude.Results.{Result, ok, raise}
use ttihp_protocol_emulator.PioAsm.{
  Emit, find_label, target, append_word, or_word, or_last, shift_control,
}
use ttihp_protocol_emulator.PioAsm.Passes.{asm_pio}
use ttihp_protocol_emulator.PathCheck.{Stop, Program, Explored, check_program, nothing_seen}
use ttihp_protocol_emulator.PathCheck.Ends.{check_program-ends}
use ttihp_protocol_emulator.PathCheck.Lockstep.{
  lockstep_program, asm_options, handler_addresses, program_of,
}

-- the lockstep program, assembled
abbrev assembled : Emit
assembled = record {
  options = asm_options;
  labels =
      ("rv_low", 0)
      ∷ ("rv_high", 1)
      ∷ ("hr_n1", 2)
      ∷ ("rdb", 7)
      ∷ ("hr_stall", 9)
      ∷ ("hr_smp", 10)
      ∷ ("wr", 14)
      ∷ ("hw_e", 15)
      ∷ ("hw_h", 18)
      ∷ ("halt", 19)
      ∷ ("cyc", 21)
      ∷ ("cyc0", 22)
      ∷ ("fetch", 24)
      ∷ ("disp", 29)
      ∷ ("rd", 31)
      ∷ [];
  instrs =
      0x1009 ∷ 0x5024 ∷ 0xb042 ∷ 0x5004 ∷ 0x6264 ∷ 0x10e2 ∷ 0x1118 ∷ 0x6208 ∷ 0x121f ∷ 0x108a
      ∷ 0xb0e0 ∷ 0x6024 ∷ 0x6061 ∷ 0x60a1 ∷ 0x6208 ∷ 0xb142 ∷ 0x10d8 ∷ 0x92 ∷ 0x10f ∷ 0x81a0 ∷ 0x16
      ∷ 0x6208 ∷ 0x5158 ∷ 0x5008 ∷ 0xe000 ∷ 0x8040 ∷ 0xa025 ∷ 0x103d ∷ 0x1198 ∷ 0x90a0 ∷ 0x70a5
      ∷ 0x6208 ∷ [];
  execctrl = 117760;
  shiftctrl = 786432;
  wrap_used = true;
  sideset_count = 1;
  pass_no = 1;
  num_instr = 32;
  num_sideset = 32;
  delay_max = 15;
  sideset_opt = false;
}

lockstep-assembled : asm_pio asm_options lockstep_program ≡ ok assembled
unfolding asm_pio find_label target append_word or_word or_last shift_control bit
lockstep-assembled = refl

abbrev lockstep : Program
lockstep = program_of assembled handler_addresses (29 ∷ 19 ∷ [])

abbrev report_of : Result Stop Explored → Explored
report_of (ok r) = r
report_of (raise e) = nothing_seen lockstep

check_program-ends_example : check_program lockstep ≢ raise Stop.no_fuel
check_program-ends_example = check_program-ends lockstep
