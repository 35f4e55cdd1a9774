-- ===== src/Machine/Outputs.antt =====
-- `Outputs` and `outputs` of test/model/reference.py: the pads before an edge.
use ttihp_protocol_emulator.Prelude.{
  ℕ, ◌*◌, ◌/◌, ◌%◌, ◌^◌, bit_and, bit_or, Bool, not, ◌&&◌, ◌||◌, none, some, List, [], ◌∷◌, to_ℕ,
  nonzero, nonempty, ltb, ◌==◌, is_some, length, any, if◌then◌else◌,
}
use ttihp_protocol_emulator.Prelude.Bits.{and_not}
use ttihp_protocol_emulator.Config.{Config}
use ttihp_protocol_emulator.Engine.{Engine}
use ttihp_protocol_emulator.Machine.{Machine, engine_at}

pub record Outputs : Type 0 where
  pub uo : ℕ
  pub uio_out : ℕ
  pub uio_oe : ℕ

abbrev pub released : Outputs
released = record { uo = 0; uio_out = 0; uio_oe = 0 }

-- the engines that drive pads
unfoldable pub is_live : Engine → Bool
is_live e = e.running && not (nonzero e.fault)

unfoldable pub pad_values : ℕ → List Engine → ℕ
unfolding is_live
pad_values values [] = values
pad_values values (e ∷ es) =
    pad_values
      (if is_live e
        then bit_or values (and_not (bit_and e.values e.ownership) e.open_drain)
        else values)
      es

unfoldable pub pad_enables : ℕ → List Engine → ℕ
unfolding is_live
pad_enables enables [] = enables
pad_enables enables (e ∷ es) =
    pad_enables
      (if is_live e
        then bit_or enables
            (and_not (bit_and e.direction e.ownership) (bit_and e.open_drain e.values))
        else enables)
      es

module _ (cfg : Config) where
  unfoldable pub write_ready : Machine → ℕ → Bool
  write_ready m window =
      let e = engine_at m m.selected in
      window == m.window
      && (window == 0
          || ((window == 1
                && (not e.running && (e.writing && ltb (length e.program) cfg.program_words)))
              || (window == 2 && ltb (length e.tx) cfg.fifo_words)))

  unfoldable pub read_valid : Machine → ℕ → Bool
  read_valid m window = window == m.window && is_some m.read_word

  unfoldable pub irq : Machine → Bool
  irq m = any (λ e. e.event || nonempty e.rx) m.engines

  unfoldable pub fault_flag : Machine → Bool
  fault_flag m = m.host_fault || any (λ e. nonzero e.fault) m.engines

  -- the nibble on `uo[3:0]`
  unfoldable pub read_nibble : Machine → ℕ → ℕ
  read_nibble m window =
      let current = window == m.window in
      let word : ℕ = if current then (elim m.read_word [ some w ↦ w | none ↦ 0 ]) else 0 in
      let read_index = if current then m.read_index else 0 in word / 2 ^ (read_index * 4) % 16

  unfoldable pub outputs : Machine → ℕ → Bool → Bool → Outputs
  unfolding write_ready read_valid irq fault_flag read_nibble pad_values pad_enables
  outputs m ui reset enabled =
      let window = ui / 2 ^ 6 % 4 in
      if reset || not enabled then released else record {
        uo =
            bit_or
              (bit_or
                (bit_or (bit_or (read_nibble m window) (to_ℕ (write_ready m window) * 2 ^ 4))
                  (to_ℕ (read_valid m window) * 2 ^ 5))
                (to_ℕ (irq m) * 2 ^ 6))
              (to_ℕ (fault_flag m) * 2 ^ 7);
        uio_out = pad_values 0 m.engines % 256;
        uio_oe = pad_enables 0 m.engines % 256;
      }
