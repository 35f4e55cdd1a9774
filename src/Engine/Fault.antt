-- ===== src/Engine/Fault.antt =====
-- The members of `Fault` in test/model/reference.py: three of them share the number 1.
use ttihp_protocol_emulator.Prelude.{ℕ}

abbrev pub invalid_opcode : ℕ
invalid_opcode = 1

abbrev pub invalid_operand : ℕ
invalid_operand = 1

abbrev pub pin_ownership : ℕ
pin_ownership = 1

abbrev pub pc_range : ℕ
pc_range = 2

abbrev pub timeout : ℕ
timeout = 3

abbrev pub rx_overflow : ℕ
rx_overflow = 4
