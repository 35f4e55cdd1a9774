-- ===== src/Engine/Pads.antt =====
-- `_drive`, `_shift_out` and `_shift_in` of test/model/reference.py: an engine's pin latches and its
-- two shift registers.
use ttihp_protocol_emulator.Prelude.{
  ℕ, ◌-◌, ◌*◌, ◌/◌, ◌%◌, ◌^◌, bit_or, Bool, get_or, set, to_ℕ, if◌then◌else◌,
}
use ttihp_protocol_emulator.Prelude.Bits.{bit, and_not}
use ttihp_protocol_emulator.Config.{Config}
use ttihp_protocol_emulator.Engine.{Engine}

-- `e.regs[a]`; an index is at most 3 where it is used
abbrev pub reg : Engine → ℕ → ℕ
reg e a = get_or e.regs a 0

abbrev pub set_reg : Engine → ℕ → ℕ → Engine
set_reg e a v = record e { regs = set e.regs a v }

unfoldable pub drive : Engine → ℕ → ℕ → Engine
drive e pin value = record e { values = bit_or (and_not e.values (2 ^ pin)) (value % 2 * 2 ^ pin) }

module _ (cfg : Config) where
  -- the bit of the TX register that goes out next, as the value given to `_drive`
  unfoldable pub next_out : Engine → Bool → ℕ
  next_out e msb = if msb then reg e 0 / 2 ^ (cfg.width - 1) else reg e 0

  unfoldable pub shift_tx : Engine → Bool → Engine
  shift_tx e msb = set_reg e 0 ((if msb then reg e 0 * 2 else reg e 0 / 2) % 2 ^ cfg.width)

  unfoldable pub shift_out : Engine → ℕ → Bool → Engine
  unfolding drive next_out shift_tx
  shift_out e pin msb = shift_tx (drive e pin (next_out e msb)) msb

  -- `sync2` is the synchronised pin input
  unfoldable pub shift_in : ℕ → Engine → ℕ → Bool → Engine
  shift_in sync2 e pin msb =
      let sampled = to_ℕ (bit sync2 pin) in
      set_reg e 1 (
        (if msb
          then bit_or (reg e 1 * 2) sampled
          else bit_or (reg e 1 / 2) (sampled * 2 ^ (cfg.width - 1)))
        % 2 ^ cfg.width)
