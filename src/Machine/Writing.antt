-- ===== src/Machine/Writing.antt =====
-- The write port puts the eight nibbles of a word together.
use ttihp_protocol_emulator.Prelude.{
  ℕ, zero, suc, ◌+◌, ◌*◌, ◌/◌, ◌%◌, ◌^◌, ◌<◌, bit_or, true, false, ◌≡◌, refl, ◌∙◌, sym, ap, arith,
  ◌==◌,
}
use native.Mathlib.Nat.{pow-succ', mod-eq-sub-mul-div, mul-div-le, div-div-eq-div-mul, mod-lt}
use ttihp_protocol_emulator.Prelude.Widths.{bit_or_sum, pow_positive}
use ttihp_protocol_emulator.Config.{Config}
use ttihp_protocol_emulator.Machine.{Machine}
use ttihp_protocol_emulator.Machine.Ports.{Written, written, accept_word, accept_write}

mod_nibble : (m n : ℕ) → n % m + n / m % 16 * m ≡ n % (m * 16)
mod_nibble m n =
    let split : m * (n / m) ≡ m * (16 * (n / m / 16) + n / m % 16) =
      ap (λ (q : ℕ). m * q) (omega arith) in
    omega (
      arith,
      mod-eq-sub-mul-div n (m * 16),
      mod-eq-sub-mul-div n m,
      mul-div-le n m,
      mul-div-le n (m * 16),
      split,
      ap (λ (q : ℕ). m * q) (div-div-eq-div-mul n m 16),
    )

four_more : (k : ℕ) → 2 ^ (4 * suc k) ≡ 2 ^ (4 * k) * 16
four_more k =
    let e : 4 * suc k ≡ suc (suc (suc (suc (4 * k)))) = omega arith in
    ap (λ n. 2 ^ n) e ∙ rw (pow-succ', pow-succ', pow-succ', pow-succ') (omega arith)

-- the nibble `k` of a word
abbrev pub nibble_of : ℕ → ℕ → ℕ
nibble_of word k = word / 2 ^ (4 * k) % 16

module _ (cfg : Config) (window word events : ℕ) where
  -- the machine after the first `k` nibbles, where all are accepted
  unfoldable pub nibbles_sent : ℕ → Machine → Machine
  nibbles_sent zero m = m
  nibbles_sent (suc k) m =
      (accept_write cfg (nibbles_sent k m) window (nibble_of word k) true events).machine

  next_word :
      (k : ℕ)
      → bit_or (word % 2 ^ (4 * k)) (nibble_of word k * 2 ^ (4 * k)) ≡ word % 2 ^ (4 * suc k)
  next_word k =
      bit_or_sum (4 * k) (word % 2 ^ (4 * k)) (nibble_of word k)
        (mod-lt word (pow_positive (4 * k)))
      ∙ mod_nibble (2 ^ (4 * k)) word
      ∙ ap (λ n. word % n) (sym (four_more k))

  abbrev at_nibble : ℕ → Machine → Machine
  at_nibble k m = record m { write_index = k; write_word = word % 2 ^ (4 * k) }

  one_more :
      (k : ℕ) (m : Machine)
      → k < 7
      → accept_write cfg (at_nibble k m) window (nibble_of word k) true events
        ≡ written (at_nibble (suc k) m) events
  unfolding accept_write
  one_more k m h =
      let open_word : (k == 7) ≡ false = ground (arith, h) in
      let counted : k + 1 ≡ suc k = omega arith in rw (open_word, next_word k, counted) refl

  last_nibble :
      (m : Machine)
      → word < 2 ^ 32
      → accept_write cfg (at_nibble 7 m) window (nibble_of word 7) true events
        ≡ accept_word cfg (record m { write_index = 0; write_word = 0 }) window word events
  unfolding accept_write
  last_nibble m small =
      let whole : bit_or (word % 2 ^ 28) (nibble_of word 7 * 2 ^ 28) ≡ word =
        next_word 7 ∙ omega arith in
      ap (λ n. accept_word cfg (record m { write_index = 0; write_word = 0 }) window n events) whole

  partial :
      (k : ℕ) (m : Machine)
      → k < 8
      → nibbles_sent k (record m { write_index = 0; write_word = 0 }) ≡ at_nibble k m
  unfolding nibbles_sent
  partial zero m h = ap (λ n. record m { write_index = 0; write_word = n }) (omega arith)
  partial (suc k) m h =
      ap (λ (x : Machine). (accept_write cfg x window (nibble_of word k) true events).machine)
        (partial k m (omega arith))
      ∙ ap (λ (w : Written). w.machine) (one_more k m (omega arith))

  -- Of the eight nibbles of a word of 32 bits, the lowest first, all accepted by a port that is empty, each of the
  -- first seven hands nothing on and does nothing but fill the port, and the last one does and hands on
  -- all that the whole word does in that window: the new machine, the TX word, the events and the edited route.
  pub nibbles_sent-accept_word :
      (m : Machine)
      → word < 2 ^ 32
      → let empty = record m { write_index = 0; write_word = 0 } in
        ((k : ℕ)
          → k < 7
          → accept_write cfg (nibbles_sent k empty) window (nibble_of word k) true events
            ≡ written
                (record empty { write_index = suc k; write_word = word % 2 ^ (4 * suc k) })
                events)
        × (accept_write cfg (nibbles_sent 7 empty) window (nibble_of word 7) true events
            ≡ accept_word cfg empty window word events)
  nibbles_sent-accept_word m small = (
    λ k below.
        ap (λ (x : Machine). accept_write cfg x window (nibble_of word k) true events)
          (partial k m (omega arith))
        ∙ one_more k m below,
    ap (λ (x : Machine). accept_write cfg x window (nibble_of word 7) true events)
          (partial 7 m (omega arith))
        ∙ last_nibble m small,
  )
