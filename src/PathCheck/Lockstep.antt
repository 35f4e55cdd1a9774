-- ===== src/PathCheck/Lockstep.antt =====
-- The lockstep program of host/pe_host/ports/pio_lockstep.py, as host/pio/pathcheck.py checks it.
use ttihp_protocol_emulator.Prelude.{ℕ, ◌/◌, ◌%◌, ◌^◌, false, some, List, [], ◌∷◌}
use ttihp_protocol_emulator.PioAsm.{Options, Emit, one}
use ttihp_protocol_emulator.PioAsm.Passes.{
  Call, wraps_to, wraps, labels, nop, jmp, jump, in_, out, push, pull, mov, set, sides, delays,
}
use ttihp_protocol_emulator.PathCheck.{Program}

-- `lockstep_program`; the numbers of `PIO_FUNCS` stand for pins 0, x 1, y 2, null 3, pc and status 5,
-- osr 7, and for the conditions not_x 1, y_dec 4, pin 6 and not_osre 7
abbrev pub lockstep_program : List Call
lockstep_program =
    labels "rv_low"
    ∷ jump "hr_stall"
    ∷ sides 1
    ∷ labels "rv_high"
    ∷ in_ 1 4
    ∷ sides 1
    ∷ labels "hr_n1"
    ∷ nop
    ∷ sides 1
    ∷ in_ 0 4
    ∷ sides 1
    ∷ out 3 4
    ∷ sides 0
    ∷ delays 2
    ∷ jmp 7 "hr_n1"
    ∷ sides 1
    ∷ jump "fetch"
    ∷ sides 1
    ∷ delays 1
    ∷ labels "rdb"
    ∷ out 0 8
    ∷ sides 0
    ∷ delays 2
    ∷ jump "rd"
    ∷ sides 1
    ∷ delays 2
    ∷ labels "hr_stall"
    ∷ jmp 4 "hr_smp"
    ∷ sides 1
    ∷ labels "hr_smp"
    ∷ mov 7 0
    ∷ sides 1
    ∷ out 1 4
    ∷ sides 0
    ∷ out 3 1
    ∷ sides 0
    ∷ out 5 1
    ∷ sides 0
    ∷ labels "wr"
    ∷ out 0 8
    ∷ sides 0
    ∷ delays 2
    ∷ labels "hw_e"
    ∷ nop
    ∷ sides 1
    ∷ delays 1
    ∷ jmp 6 "fetch"
    ∷ sides 1
    ∷ jmp 4 "hw_h"
    ∷ sides 0
    ∷ labels "hw_h"
    ∷ jump "hw_e"
    ∷ sides 0
    ∷ delays 1
    ∷ labels "halt"
    ∷ pull 0x21 0
    ∷ sides 0
    ∷ delays 1
    ∷ jump "cyc0"
    ∷ sides 0
    ∷ labels "cyc"
    ∷ out 0 8
    ∷ sides 0
    ∷ delays 2
    ∷ labels "cyc0"
    ∷ in_ 2 24
    ∷ sides 1
    ∷ delays 1
    ∷ in_ 0 8
    ∷ sides 1
    ∷ wraps_to
    ∷ labels "fetch"
    ∷ set 0 0
    ∷ sides 0
    ∷ push 0x40 1
    ∷ sides 0
    ∷ mov 1 5
    ∷ sides 0
    ∷ jmp 1 "disp"
    ∷ sides 1
    ∷ jmp 4 "fetch"
    ∷ sides 1
    ∷ delays 1
    ∷ wraps
    ∷ labels "disp"
    ∷ pull 0 0
    ∷ sides 1
    ∷ out 5 5
    ∷ sides 1
    ∷ labels "rd"
    ∷ out 0 8
    ∷ sides 0
    ∷ delays 2
    ∷ []

-- `asm_options`, with the numbers of the stand-in of the constants; a tuple of equal initial values is one of
-- them
abbrev pub asm_options : Options
asm_options = record {
  out_init = some 2;
  set_init = some 2;
  sideset_init = some (one 2);
  side_pindir = false;
  in_shiftdir = 1;
  out_shiftdir = 1;
  autopush = false;
  autopull = false;
  push_thresh = 32;
  pull_thresh = 32;
  fifo_join = 0;
}

-- the addresses of RD, RDB, WR, HALT and CYC
abbrev pub handler_addresses : List ℕ
handler_addresses = 31 ∷ 7 ∷ 14 ∷ 19 ∷ 21 ∷ []

-- what `check_program` takes from an assembled program, with the handlers and the PCs that may block
abbrev pub program_of : Emit → List ℕ → List ℕ → Program
program_of e handlers allowed = record {
  mem = e.instrs;
  wrap_bottom = e.execctrl / 2 ^ 7 % 32;
  wrap_top = e.execctrl / 2 ^ 12 % 32;
  handlers = handlers;
  allowed_blocking = allowed;
}
