-- ===== src/PioAsm/Fields.antt =====
-- The side-set and delay fields of an instruction: what `side` and `delay` of host/pio/asm.py write,
-- the simulator of host/pio/sim.py reads back, and `disassemble` shows.
pub mod Written
use native.Mathlib.Decide.{dec_lt}
use ttihp_protocol_emulator.Prelude.{
  ℕ, zero, suc, ◌+◌, ◌-◌, ◌*◌, ◌/◌, ◌%◌, ◌^◌, ◌<◌, ◌≤◌, bit_or, Bool, true, false, not, Option,
  none, some, List, [], ◌∷◌, ◌++◌, ◌≡◌, ◌≢◌, refl, sym, ap, ◌∙◌, subst, arith, ltb, leb, ◌==◌,
  if◌then◌else◌, nonzero, to_ℕ, ◌&&◌, ◌||◌, ◌⊎◌, inl, inr, ==_iff,
}
use ttihp_protocol_emulator.Prelude.Bits.{bit, bit-bit_or, bits-eq}
use ttihp_protocol_emulator.Prelude.Widths.{
  bit_or_sum, bit_or_comm, pow-le, bit_or-lt, bit-mul_pow, bit-mul_pow_low, pow_add,
}
use ttihp_protocol_emulator.Prelude.Finite.{all_below, below}
use ttihp_protocol_emulator.Prelude.Results.{Result, ok, raise, ◌>>=◌, >>=-eq-ok}
use ttihp_protocol_emulator.Pio.{StateMachineConfig, PioError, masked}
use ttihp_protocol_emulator.Pio.Helpers.{side_bits, side_set, delay_of}
use ttihp_protocol_emulator.PioAsm.{AsmError, Emit, or_last, or_word, side, delay}
use ttihp_protocol_emulator.PioAsm.Disassemble.{shown_side, shown_delay}

pub mod_small : (n k : ℕ) → k ≤ 5 → n % 32 % 2 ^ k ≡ n % 2 ^ k
mod_small n zero h = omega arith
mod_small n (suc zero) h = omega arith
mod_small n (suc (suc zero)) h = omega arith
mod_small n (suc (suc (suc zero))) h = omega arith
mod_small n (suc (suc (suc (suc zero)))) h = omega arith
mod_small n (suc (suc (suc (suc (suc zero))))) h = omega arith
mod_small n (suc (suc (suc (suc (suc (suc k)))))) h = absurd (omega arith)

-- The disassembler shows the side-set and the delay that the simulator takes, for every instruction and
-- every configuration of at most five side-set bits that has a data bit or no enable bit.
pub shown-fields :
    (c : StateMachineConfig) (instr : ℕ)
    → side_bits c ≤ 5
    → (c.sideset_count ≢ 0) ⊎ (c.sideset_opt ≡ false)
    → (side_set c instr ≡ ok (shown_side c.sideset_count c.sideset_opt instr))
      × (delay_of c instr ≡ ok (shown_delay c.sideset_count c.sideset_opt instr))
unfolding side_set delay_of shown_side shown_delay
shown-fields c instr h k =
    (ground arith, ground (arith, mod_small (instr / 2 ^ 8) (5 - side_bits c)))

-- the five bits that `side` puts together, where its value is below 2 ^ s
abbrev pub side_field : Bool → ℕ → ℕ → ℕ
side_field optional s value = bit_or (to_ℕ optional * 16) (value * 2 ^ (5 - s))

-- with the delay
abbrev pub whole_field : Bool → ℕ → ℕ → ℕ → ℕ
whole_field optional s value n = bit_or (side_field optional s value) n

-- what is read back: the delay, the value without the enable bit, and the enable bit
abbrev reads : Bool → ℕ → ℕ → ℕ → Bool
reads optional s value n =
    let f = whole_field optional s value n in
    not (ltb 0 s && (ltb value (2 ^ s) && ltb n (2 ^ (5 - s))))
    || (ltb f 32
        && (f % 2 ^ (5 - s) == n
            && (f / 2 ^ (5 - s) % 2 ^ (s - to_ℕ optional) == value % 2 ^ (s - to_ℕ optional)
                && (not optional || bit f 4))))

all_fields :
    (optional : Bool)
    → all_below 6 (λ s. all_below 32 (λ value. all_below 32 (λ n. reads optional s value n))) ≡ true
unfolding bit
all_fields true = refl
all_fields false = refl

pub delay_fits : (s n : ℕ) → s ≤ 5 → n ≤ 31 / 2 ^ s → n < 2 ^ (5 - s)
delay_fits zero n h k = omega arith
delay_fits (suc zero) n h k = omega arith
delay_fits (suc (suc zero)) n h k = omega arith
delay_fits (suc (suc (suc zero))) n h k = omega arith
delay_fits (suc (suc (suc (suc zero)))) n h k = omega arith
delay_fits (suc (suc (suc (suc (suc zero))))) n h k = omega arith
delay_fits (suc (suc (suc (suc (suc (suc s)))))) n h k = absurd (omega arith)

value_fits : (s value : ℕ) → s ≤ 5 → value < 2 ^ s → value < 32
value_fits s value h k = omega (arith, k, pow-le s 5 h)

reads_part :
    (optional t : Bool) (s value n p q f a b d : ℕ)
    → (not (ltb 0 s && (ltb value p && ltb n q))
        || (ltb f 32 && (a == n && (b == d && (not optional || t)))))
      ≡ true
    → 0 < s
    → value < p
    → n < q
    → (f < 32) × (a ≡ n) × (b ≡ d) × ((not optional || t) ≡ true)
reads_part optional t s value n p q f a b d h k l m =
    (ground arith, ground arith, ground arith, ground arith)

-- What the field reads as, for all its values.
pub field_reads :
    (optional : Bool) (s value n : ℕ)
    → 0 < s
    → s ≤ 5
    → value < 2 ^ s
    → n < 2 ^ (5 - s)
    → let f = whole_field optional s value n in
      (f < 32)
      × (f % 2 ^ (5 - s) ≡ n)
      × (f / 2 ^ (5 - s) % 2 ^ (s - to_ℕ optional) ≡ value % 2 ^ (s - to_ℕ optional))
      × ((not optional || bit f 4) ≡ true)
field_reads optional s value n p h k q =
    let at_s =
      below 6 (λ s. all_below 32 (λ value. all_below 32 (λ n. reads optional s value n))) s
        (all_fields optional) (omega arith) in
    let at_value =
      below 32 (λ value. all_below 32 (λ n. reads optional s value n)) value at_s
        (value_fits s value h k) in
    let small : n < 32 = omega (arith, q, pow-le (5 - s) 5 (omega arith)) in
    let at_n = below 32 (λ n. reads optional s value n) n at_value small in
    reads_part optional _ s value n (2 ^ s) (2 ^ (5 - s)) _ _ _ _ at_n p k q

pub or_assoc : (a b c : ℕ) → bit_or (bit_or a b) c ≡ bit_or a (bit_or b c)
or_assoc a b c = bits-eq _ _ (λ i. ground (
  arith,
  bit-bit_or (bit_or a b) c i,
  bit-bit_or a b i,
  bit-bit_or a (bit_or b c) i,
  bit-bit_or b c i,
))

pub or_scaled : (k a b : ℕ) → bit_or (a * 2 ^ k) (b * 2 ^ k) ≡ bit_or a b * 2 ^ k
or_scaled k a b = bits-eq _ _ (λ i. elim (dec_lt i k) [
  | yes low ↦ ground (
    arith,
    bit-bit_or (a * 2 ^ k) (b * 2 ^ k) i,
    bit-mul_pow_low k a i low,
    bit-mul_pow_low k b i low,
    bit-mul_pow_low k (bit_or a b) i low,
  )
  | no high ↦
      let place : i ≡ k + (i - k) = omega arith in
      let moved : (m : ℕ) → bit (m * 2 ^ k) i ≡ bit m (i - k) =
        λ m. ap (λ j. bit (m * 2 ^ k) j) place ∙ bit-mul_pow k m (i - k) in
      ground (
        arith,
        bit-bit_or (a * 2 ^ k) (b * 2 ^ k) i,
        moved a,
        moved b,
        moved (bit_or a b),
        bit-bit_or a b (i - k),
      )
])

-- a field goes into the bits 8 to 12 that are clear
pub or_field : (w f : ℕ) → w / 2 ^ 8 % 32 ≡ 0 → f < 32 → bit_or w (f * 2 ^ 8) ≡ w + f * 2 ^ 8
or_field w f clear h =
    let low = w % 256 in
    let hi = w / 2 ^ 13 in
    let split : w ≡ low + hi * 2 ^ 13 = omega arith in
    let low_part : bit_or low (f * 2 ^ 8) ≡ low + f * 2 ^ 8 = bit_or_sum 8 low f (omega arith) in
    let swapped : bit_or (bit_or low (hi * 2 ^ 13)) (f * 2 ^ 8)
        ≡ bit_or (bit_or low (f * 2 ^ 8)) (hi * 2 ^ 13) =
      or_assoc low (hi * 2 ^ 13) (f * 2 ^ 8)
      ∙ ap (λ m. bit_or low m) (bit_or_comm (hi * 2 ^ 13) (f * 2 ^ 8))
      ∙ sym (or_assoc low (f * 2 ^ 8) (hi * 2 ^ 13)) in
    let apart : bit_or low (hi * 2 ^ 13) ≡ w = bit_or_sum 13 low hi (omega arith) ∙ omega arith in
    let joined : bit_or (low + f * 2 ^ 8) (hi * 2 ^ 13) ≡ low + f * 2 ^ 8 + hi * 2 ^ 13 =
      bit_or_sum 13 (low + f * 2 ^ 8) hi (omega arith) in
    ap (λ m. bit_or m (f * 2 ^ 8)) (sym apart)
    ∙ swapped
    ∙ ap (λ m. bit_or m (hi * 2 ^ 13)) low_part
    ∙ joined
    ∙ omega arith

pub or_last-append :
    (bits : ℕ) (ws : List ℕ) (w : ℕ)
    → or_last bits (ws ++ w ∷ []) ≡ (
        if ltb (bit_or w bits) (2 ^ 16)
        then ok (ws ++ bit_or w bits ∷ [])
        else raise AsmError.overflow)
unfolding or_last
or_last-append bits [] w = refl
or_last-append bits (v ∷ []) w = ground arith
or_last-append bits (v ∷ u ∷ ws) w = ground (arith, or_last-append bits (u ∷ ws) w)
