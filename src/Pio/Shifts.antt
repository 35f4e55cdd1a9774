-- ===== src/Pio/Shifts.antt =====
-- The shift registers of host/pio/sim.py: what OUT takes from the OSR, IN puts into the ISR; and
-- `bit_reverse`.
use native.Mathlib.Decide.{dec_lt}
use native.Mathlib.Nat.{mod-lt, div-add-mod, div-lt_iff_lt-mul, mod-eq_of_lt}
use ttihp_protocol_emulator.Prelude.{
  ℕ, zero, suc, ◌+◌, ◌-◌, ◌*◌, ◌/◌, ◌%◌, ◌^◌, ◌<◌, bit_or, Bool, true, false, ◌≡◌, refl, sym, ap,
  subst, ◌∙◌, arith, ltb, leb, ◌==◌, if◌then◌else◌, to_ℕ, ◌&&◌,
}
use ttihp_protocol_emulator.Prelude.Bits.{bit, bit-zero, bit-bit_or, bits-eq}
use ttihp_protocol_emulator.Prelude.Widths.{pow_add, pow_positive, bit_or_comm, bit_or_sum, bit-lt}
use ttihp_protocol_emulator.Pio.{StateMachine, reversed, bit_reverse}
use ttihp_protocol_emulator.Pio.Helpers.{shift_out, shift_in_value}
use ttihp_protocol_emulator.Pio.Valid.{IsValid, bit_reverse-lt}

level-bit : (b : Bool) (i : ℕ) → bit (to_ℕ b) i ≡ (b && i == 0)
unfolding bit
level-bit true zero = refl
level-bit true (suc i) = bit-zero i ∙ ground arith
level-bit false i = bit-zero i ∙ ground arith

double-bit : (n i : ℕ) → bit (n * 2) (suc i) ≡ bit n i
unfolding bit
double-bit n i = ap (λ m. bit m i) (omega arith)

double-bit_zero : (n : ℕ) → bit (n * 2) 0 ≡ false
unfolding bit
double-bit_zero n = ground arith

bit-reversed : (value n i : ℕ) → i < n → bit (reversed value n) i ≡ bit value (n - 1 - i)
unfolding reversed
bit-reversed value zero i h = absurd (omega arith)
bit-reversed value (suc n) zero h = ground (
  arith,
  bit-bit_or (reversed value n * 2) (to_ℕ (bit value n)) 0,
  level-bit (bit value n) 0,
  double-bit_zero (reversed value n),
  ap (λ j. bit value j) (let e : suc n - 1 - 0 ≡ n = omega arith in e),
)
bit-reversed value (suc n) (suc i) h = ground (
  arith,
  bit-bit_or (reversed value n * 2) (to_ℕ (bit value n)) (suc i),
  level-bit (bit value n) (suc i),
  double-bit (reversed value n) i,
  bit-reversed value n i (omega arith),
  ap (λ j. bit value j) (let e : suc n - 1 - suc i ≡ n - 1 - i = omega arith in e),
)

-- `bit_reverse` turns the 32 bits of a word round.
pub bit-bit_reverse : (value i : ℕ) → i < 32 → bit (bit_reverse value) i ≡ bit value (31 - i)
unfolding bit_reverse
bit-bit_reverse value i h = bit-reversed value 32 i h

-- Twice is the word again.
pub bit_reverse-bit_reverse : (value : ℕ) → value < 2 ^ 32 → bit_reverse (bit_reverse value) ≡ value
bit_reverse-bit_reverse value h = bits-eq _ _ (λ i. elim (dec_lt i 32) [
  | yes low ↦
      bit-bit_reverse (bit_reverse value) i low
      ∙ bit-bit_reverse value (31 - i) (omega arith)
      ∙ ap (λ j. bit value j) (let e : 31 - (31 - i) ≡ i = omega arith in e)
  | no high ↦
      bit-lt 32 (bit_reverse (bit_reverse value)) i (bit_reverse-lt _) (omega arith)
      ∙ sym (bit-lt 32 value i h (omega arith))
])

-- the OSR and the ISR as one number of 64 bits, the ISR above
abbrev pub joined : ℕ → ℕ → ℕ
joined isr osr = isr * 2 ^ 32 + osr

split_word : (p q hi lo : ℕ) → (q * hi + lo) * p ≡ hi * (p * q) + lo * p
split_word p q hi lo = grind arith

low_part : (p q lo : ℕ) → lo < q → 0 < p → lo * p < p * q
low_part p q lo h k = grind arith

join_word :
    (p isr osr hi low m : ℕ)
    → osr * p ≡ hi * m + low
    → (isr * m + osr) * p ≡ (isr * p + hi) * m + low
join_word p isr osr hi low m e = grind arith

-- for the powers p and q of two, whose product is 2 ^ 32
shifted_word :
    (p q isr osr : ℕ)
    → p * q ≡ 2 ^ 32
    → 0 < p
    → 0 < q
    → osr < 2 ^ 32
    → joined ((isr * p + osr / q) % 2 ^ 32) (osr * p % 2 ^ 32) ≡ joined isr osr * p % 2 ^ 64
shifted_word p q isr osr e hp hq h =
    let hi = osr / q in
    let lo = osr % q in
    let split : osr * p ≡ hi * 2 ^ 32 + lo * p =
      subst (λ m. osr * p ≡ hi * m + lo * p) e
        (ap (λ n. n * p) (sym (div-add-mod osr q)) ∙ split_word p q hi lo) in
    let low : lo * p < 2 ^ 32 = subst (λ m. lo * p < m) e (low_part p q lo (mod-lt osr hq) hp) in
    let whole : joined isr osr * p ≡ (isr * p + hi) * 2 ^ 32 + lo * p =
      join_word p isr osr hi (lo * p) (2 ^ 32) split in
    omega (arith, split, low, whole)

-- An OUT of `n` bits, 0 standing for 32, whose bits an IN of `n` takes, both to the left: the ISR and the
-- OSR, read as one number of 64 bits with the ISR above, shift by that many bits together.
pub shift_in_value-shift_out :
    (sm : StateMachine) (n : ℕ)
    → IsValid sm
    → n < 32
    → sm.config.in_shift_right ≡ false
    → sm.config.out_shift_right ≡ false
    → let (after, bits) = shift_out sm n in
      joined (shift_in_value sm bits n).0 after.osr
      ≡ joined sm.isr sm.osr * 2 ^ (if n == 0 then 32 else n) % 2 ^ 64
unfolding shift_out shift_in_value
shift_in_value-shift_out sm zero v h left left' = rw left' (omega (arith, v.osr_word))
shift_in_value-shift_out sm (suc n) v h left left' =
    let p = 2 ^ suc n in
    let q = 2 ^ (32 - suc n) in
    let counted : (suc n == 0) ≡ false = ground arith in
    let short : leb 32 (suc n) ≡ false = ground arith in
    let short' : ltb (suc n) 32 ≡ true = ground arith in
    let whole : suc n + (32 - suc n) ≡ 32 = omega arith in
    let product : p * q ≡ 2 ^ 32 = sym (pow_add (suc n) (32 - suc n)) ∙ ap (λ k. 2 ^ k) whole in
    let top : sm.osr / q < p =
      (div-lt_iff_lt-mul (pow_positive (32 - suc n))).1 (rw product v.osr_word) in
    let bits : sm.osr / q % p ≡ sm.osr / q = mod-eq_of_lt top in
    let united : bit_or (sm.isr * p) (sm.osr / q) ≡ sm.isr * p + sm.osr / q =
      bit_or_comm _ _ ∙ bit_or_sum (suc n) (sm.osr / q) sm.isr top ∙ omega arith in
    rw (counted, left', short, short', left, bits, bits, united)
      (ap (λ m. joined m (sm.osr * p % 2 ^ 32)) (omega arith)
        ∙ shifted_word p q sm.isr sm.osr product (pow_positive (suc n)) (pow_positive (32 - suc n))
            v.osr_word)
