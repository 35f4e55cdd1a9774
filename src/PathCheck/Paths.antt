-- ===== src/PathCheck/Paths.antt =====
-- What a program without errors in `check_program` of host/pio/pathcheck.py does on each of its paths.
use ttihp_protocol_emulator.Prelude.{ℕ, ◌≡◌, some, get_elem?}
use ttihp_protocol_emulator.PathCheck.{Program, successors, next_slot, addr_fetch, drive_slot}
use ttihp_protocol_emulator.PathCheck.Rules.{In}

-- The states that the program can come to: it starts at the fetch, where ui_in changes, and goes from an
-- instruction to its successors when its cycles are over.
pub data Reaches (p : Program) : ℕ → ℕ → Type 0 where
  begins : Reaches p addr_fetch drive_slot
  follows :
      {pc slot instr target : ℕ}
      → Reaches p pc slot
      → get_elem? p.mem pc ≡ some instr
      → In target (successors p pc instr)
      → Reaches p target (next_slot slot instr)
