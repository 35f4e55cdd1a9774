-- ===== src/Machine/Handshake.antt =====
-- The bits of `uo` that the host samples.
use ttihp_protocol_emulator.Prelude.{
  ℕ, ◌*◌, ◌/◌, ◌%◌, ◌^◌, ◌<◌, bit_or, Bool, true, false, ◌||◌, ◌≡◌, ◌∙◌, ap, to_ℕ, arith,
}
use ttihp_protocol_emulator.Prelude.Bits.{bit, bit-bit_or, bit-zero, bit-pow}
use ttihp_protocol_emulator.Config.{Config}
use ttihp_protocol_emulator.Machine.{Machine}
use ttihp_protocol_emulator.Machine.Outputs.{
  read_nibble, write_ready, read_valid, irq, fault_flag, outputs,
}

-- one flag of the port
flag : (b : Bool) (k i : ℕ) → Bool
flag true k i = bit (2 ^ k) i
flag false k i = false

flag-bit : (b : Bool) (k i : ℕ) → bit (to_ℕ b * 2 ^ k) i ≡ flag b k i
unfolding flag
flag-bit true k i = ap (λ n. bit n i) (omega arith)
flag-bit false k i = ap (λ n. bit n i) (omega arith) ∙ bit-zero i

-- a nibble has no bits above 3
nibble_high : (n i : ℕ) → n < 16 → (bit n 4 ≡ false) × (bit n 5 ≡ false)
unfolding bit
nibble_high n i h = (ground arith, ground arith)

module _ (n : ℕ) (ready valid irq fault : Bool) where
  port : ℕ
  port =
      bit_or
        (bit_or (bit_or (bit_or n (to_ℕ ready * 2 ^ 4)) (to_ℕ valid * 2 ^ 5)) (to_ℕ irq * 2 ^ 6))
        (to_ℕ fault * 2 ^ 7)

  bit-port :
      (i : ℕ)
      → bit port i
        ≡ ((((bit n i || flag ready 4 i) || flag valid 5 i) || flag irq 6 i) || flag fault 7 i)
  unfolding port
  bit-port i = simp (bit-bit_or, flag-bit)

  port_flags : n < 16 → (bit port 4 ≡ ready) × (bit port 5 ≡ valid)
  unfolding flag
  port_flags h =
      let (low4, low5) = nibble_high n 0 h in
      (
        bit-port 4 ∙ ground (arith, low4, bit-pow 4 4, bit-pow 5 4, bit-pow 6 4, bit-pow 7 4),
        bit-port 5 ∙ ground (arith, low5, bit-pow 4 5, bit-pow 5 5, bit-pow 6 5, bit-pow 7 5),
      )

nibble-lt : (cfg : Config) (m : Machine) (window : ℕ) → read_nibble cfg m window < 16
unfolding read_nibble
nibble-lt cfg m window = omega arith

module _ (cfg : Config) (m : Machine) (ui : ℕ) where
  -- Bit 4 of `uo` is the write-ready of the window, bit 5 the read-valid.
  pub outputs_ready : bit (outputs cfg m ui false true).uo 4 ≡ write_ready cfg m (ui / 2 ^ 6 % 4)
  unfolding outputs port
  outputs_ready =
      let window = ui / 2 ^ 6 % 4 in
      (port_flags (read_nibble cfg m window) (write_ready cfg m window) (read_valid cfg m window)
        (irq cfg m) (fault_flag cfg m) (nibble-lt cfg m window)).0

  pub outputs_valid : bit (outputs cfg m ui false true).uo 5 ≡ read_valid cfg m (ui / 2 ^ 6 % 4)
  unfolding outputs port
  outputs_valid =
      let window = ui / 2 ^ 6 % 4 in
      (port_flags (read_nibble cfg m window) (write_ready cfg m window) (read_valid cfg m window)
        (irq cfg m) (fault_flag cfg m) (nibble-lt cfg m window)).1
