-- ===== src/LineUnit/Crc.antt =====
-- `PRESETS`, `capabilities`, `crc_step` and `preset_polynomial` of test/model/line_unit.py.
use ttihp_protocol_emulator.Prelude.{
  ℕ, ◌-◌, ◌*◌, ◌/◌, ◌%◌, ◌^◌, bit_or, bit_xor, Bool, List, [], ◌∷◌, get_or, nonzero, if◌then◌else◌,
}

-- the reflected polynomial, and the normal one aligned to the left of 16 bits
pub record Preset : Type 0 where
  pub reflected : ℕ
  pub normal : ℕ

abbrev pub presets : List Preset
presets =
    record { reflected = 0x0014; normal = 0x05 * 2 ^ 11 }
    ∷ record { reflected = 0xA001; normal = 0x8005 }
    ∷ record { reflected = 0x4CD1; normal = 0x4599 * 2 }
    ∷ record { reflected = 0x8408; normal = 0x1021 }
    ∷ []

abbrev pub no_preset : Preset
no_preset = record { reflected = 0; normal = 0 }

-- the bits 23 to 8 of READ_SELECT 7; `fitted` is `line_unit != "none"`
unfoldable pub capabilities : Bool → ℕ → ℕ
capabilities fitted engines = if fitted then bit_or 0x5F ((2 ^ engines - 1) * 2 ^ 8) else 0

unfoldable pub preset_polynomial : ℕ → Bool → ℕ
preset_polynomial preset msb =
    let p = get_or presets (preset % 4) no_preset in if msb then p.normal else p.reflected

-- one bit, 0 or 1, into a register of 16 bits
unfoldable pub crc_step : ℕ → ℕ → ℕ → Bool → ℕ
crc_step crc bit poly msb =
    let feedback = if msb then bit_xor (crc / 2 ^ 15 % 2) bit else bit_xor (crc % 2) bit in
    let shifted = if msb then crc * 2 % 2 ^ 16 else crc / 2 in
    bit_xor shifted (if nonzero feedback then poly else 0)
