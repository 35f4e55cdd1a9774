-- ===== src/Tests/Assembler.antt =====
-- The theorems on the PIO assembler at concrete programs.
use ttihp_protocol_emulator.Prelude.{
  ℕ, ◌/◌, ◌%◌, ◌^◌, ◌≡◌, refl, true, false, inl, none, some, List, [], ◌∷◌, ◌++◌, arith,
}
use ttihp_protocol_emulator.Prelude.Bits.{bit}
use ttihp_protocol_emulator.Prelude.Results.{ok, ◌>>=◌}
use ttihp_protocol_emulator.Pio.{StateMachineConfig, default_config}
use ttihp_protocol_emulator.Pio.Helpers.{side_set, delay_of}
use ttihp_protocol_emulator.PioAsm.{
  Options, default_options, Emit, one, side, delay, or_word, or_last, find_label, target,
  append_word, shift_control, init_count,
}
use ttihp_protocol_emulator.PioAsm.Passes.{Call, labels, set, jump, delays, asm_pio}
use ttihp_protocol_emulator.PioAsm.Disassemble.{shown_side, shown_delay}
use ttihp_protocol_emulator.PioAsm.Fields.{shown-fields}
use ttihp_protocol_emulator.PioAsm.Fields.Written.{side-delay}
use ttihp_protocol_emulator.PioAsm.Labels.{position, emitted}
use ttihp_protocol_emulator.PioAsm.Labels.Second.{asm_pio-labels}
use ttihp_protocol_emulator.PioAsm.Program.{from_program, from_program-asm_pio}

-- optional side-set of one bit
abbrev optional : StateMachineConfig
optional = record default_config { sideset_count = 1; sideset_opt = true }

shown-fields_example :
    (side_set optional 0xba42 ≡ ok (shown_side 1 true 0xba42))
    × (delay_of optional 0xba42 ≡ ok (shown_delay 1 true 0xba42))
shown-fields_example = shown-fields optional 0xba42 (omega arith) (inl (omega arith))

-- the second pass of a program with a `nop()` and one with optional side-set
abbrev second : Emit
second = record {
  options = record default_options { sideset_init = some (one 0) };
  labels = [];
  instrs = 0xa042 ∷ [];
  execctrl = 0;
  shiftctrl = 0;
  wrap_used = true;
  sideset_count = 2;
  pass_no = 1;
  num_instr = 1;
  num_sideset = 0;
  delay_max = 7;
  sideset_opt = true;
}

-- `side(3)` is accepted, and read back as 1
side-delay_run :
    (side 3 second >>= delay 2) ≡ ok (record second { instrs = 0xba42 ∷ []; num_sideset = 1 })
unfolding side delay or_word or_last
side-delay_run = refl

side-delay_example :
    (w' : ℕ) × (0xba42 ∷ [] ≡ [] ++ w' ∷ [])
    × (side_set optional w' ≡ ok (some (3 % 2 ^ 1)))
    × (delay_of optional w' ≡ ok 2)
    × (w' % 256 ≡ 0xa042 % 256)
    × (w' / 2 ^ 13 ≡ 0xa042 / 2 ^ 13)
side-delay_example =
    side-delay optional second (record second { instrs = 0xba42 ∷ []; num_sideset = 1 }) [] 0xa042 3
      2 (omega arith) refl refl (omega arith) (omega arith) refl (omega arith) side-delay_run

-- a label, two instructions and a jump back
abbrev calls : List Call
calls = labels "loop" ∷ set 0 1 ∷ set 0 0 ∷ delays 3 ∷ jump "loop" ∷ []

abbrev meant : Options
meant = record default_options { autopush = true; push_thresh = 8; fifo_join = 1 }

abbrev program : Emit
program = record {
  options = meant;
  labels = ("loop", 0) ∷ [];
  instrs = 0xe001 ∷ 0xe300 ∷ 0x0000 ∷ [];
  execctrl = 8192;
  shiftctrl = 1082195968;
  wrap_used = true;
  sideset_count = 0;
  pass_no = 1;
  num_instr = 3;
  num_sideset = 0;
  delay_max = 31;
  sideset_opt = false;
}

calls-program : asm_pio meant calls ≡ ok program
unfolding asm_pio find_label target append_word or_word or_last shift_control
calls-program = refl

asm_pio-labels_example :
    (find_label "loop" program.labels ≡ position "loop" 0 calls) × (3 ≡ emitted calls)
asm_pio-labels_example = asm_pio-labels meant calls program "loop" calls-program

from_program-asm_pio_example :
    let c = from_program program 4 false in
    (c.in_shift_right ≡ false)
    × (c.out_shift_right ≡ false)
    × (c.autopush ≡ true)
    × (c.autopull ≡ false)
    × (c.push_thresh ≡ 8)
    × (c.pull_thresh ≡ 32)
    × (c.fjoin_tx ≡ bit 1 0)
    × (c.fjoin_rx ≡ bit 1 1)
    × (c.sideset_count ≡ init_count none)
from_program-asm_pio_example =
    from_program-asm_pio meant calls program 4 false (ground arith) calls-program
