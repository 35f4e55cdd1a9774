-- ===== src/Config.antt =====
-- `Config` of test/model/reference.py.
use ttihp_protocol_emulator.Prelude.{ℕ, Bool, ◌&&◌, ◌||◌, ◌==◌}

pub record Config : Type 0 where
  pub engines : ℕ
  pub width : ℕ
  pub program_words : ℕ
  pub fifo_words : ℕ
  pub fused : Bool
  pub prefetch : Bool

-- `__post_init__`, which raises `ValueError` where this is `false`
unfoldable pub is_supported : Config → Bool
is_supported cfg =
    (cfg.engines == 2 || cfg.engines == 4)
    && (cfg.width == 16 || cfg.width == 32)
    && (cfg.program_words == 32 || cfg.program_words == 64 || cfg.program_words == 128)
    && (cfg.fifo_words == 8 || cfg.fifo_words == 32)
