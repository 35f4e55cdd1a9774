-- ===== src/LineUnit/Mirror.antt =====
-- The MSB-first and the LSB-first CRC registers are mirror images of each other, for each preset.
use ttihp_protocol_emulator.Prelude.{
  ℕ, zero, suc, ◌-◌, ◌*◌, ◌/◌, ◌%◌, ◌^◌, ◌<◌, bit_xor, Bool, true, false, ◌&&◌, ◌≡◌, refl, ◌∙◌, sym,
  ap, List, [], ◌∷◌, arith, ltb, ◌≤◌, not, inl, inr, ◌⊎◌, to_ℕ, if◌then◌else◌,
}
use ttihp_protocol_emulator.Prelude.Bits.{bit, differs, bit-bit_xor, bit-mod, bit-zero}
use ttihp_protocol_emulator.Prelude.Finite.{all_below, below}
use ttihp_protocol_emulator.LineUnit.Crc.{preset_polynomial, crc_step}

-- `x` and `y` have 16 bits, each the other's from the other end
pub record Mirrors (x y : ℕ) : Type 0 where
  pub high : (i : ℕ) → 16 ≤ i → bit x i ≡ false
  pub high' : (i : ℕ) → 16 ≤ i → bit y i ≡ false
  pub mirror : (i : ℕ) → i < 16 → bit x i ≡ bit y (15 - i)

-- the register after a message, each bit `true` or `false`
unfoldable pub crc_of : ℕ → Bool → ℕ → List Bool → ℕ
crc_of preset msb crc [] = crc
crc_of preset msb crc (b ∷ bits) =
    crc_of preset msb (crc_step crc (to_ℕ b) (preset_polynomial preset msb) msb) bits

bit-double : (n i : ℕ) → bit (n * 2) (suc i) ≡ bit n i
unfolding bit
bit-double n i = ap (λ n. bit n i) (omega arith)

bit-double_low : (n : ℕ) → bit (n * 2) 0 ≡ false
unfolding bit
bit-double_low n = ground arith

bit-half : (n i : ℕ) → bit (n / 2) i ≡ bit n (suc i)
unfolding bit
bit-half n i = refl

bit_high : (n i : ℕ) → n < 2 ^ 16 → 16 ≤ i → bit n i ≡ false
bit_high n i small h =
    let same : n % 2 ^ 16 ≡ n = omega arith in
    ap (λ n. bit n i) (sym same) ∙ bit-mod 16 n i ∙ ground arith

-- the bits that the feedback looks at
top : (x : ℕ) → x / 2 ^ 15 % 2 ≡ to_ℕ (bit x 15)
unfolding bit
top x = ground arith

low : (y : ℕ) → y % 2 ≡ to_ℕ (bit y 0)
unfolding bit
low y = ground arith

abbrev same_bit : ℕ → ℕ → ℕ → Bool
same_bit x y i = not (differs (bit x i) (bit y (15 - i)))

polynomials : (x y : ℕ) → x < 2 ^ 16 → y < 2 ^ 16 → all_below 16 (same_bit x y) ≡ true → Mirrors x y
polynomials x y small small' h = record {
  high = λ i ge. bit_high x i small ge;
  high' = λ i ge. bit_high y i small' ge;
  mirror = λ i lt. ground (arith, below 16 (same_bit x y) i h lt);
}

four : (n : ℕ) → (n % 4 ≡ 0) ⊎ (n % 4 ≡ 1) ⊎ (n % 4 ≡ 2) ⊎ (n % 4 ≡ 3)
four n = omega arith

preset-Mirrors :
    (preset : ℕ) → Mirrors (preset_polynomial preset true) (preset_polynomial preset false)
unfolding preset_polynomial bit
preset-Mirrors preset = elim (four preset) [
  | inl q ↦ rw q (polynomials 0x2800 0x0014 (omega arith) (omega arith) refl)
  | inr (inl q) ↦ rw q (polynomials 0x8005 0xA001 (omega arith) (omega arith) refl)
  | inr (inr (inl q)) ↦ rw q (polynomials 0x8B32 0x4CD1 (omega arith) (omega arith) refl)
  | inr (inr (inr q)) ↦ rw q (polynomials 0x1021 0x8408 (omega arith) (omega arith) refl)
]

pub zero-Mirrors : Mirrors 0 0
zero-Mirrors = record {
  high = λ i ge. bit-zero i;
  high' = λ i ge. bit-zero i;
  mirror = λ i lt. bit-zero i ∙ sym (bit-zero (15 - i));
}

xor-Mirrors : (x y p q : ℕ) → Mirrors x y → Mirrors p q → Mirrors (bit_xor x p) (bit_xor y q)
xor-Mirrors x y p q h k = record {
  high = λ i ge. bit-bit_xor x p i ∙ ground (arith, h.high i ge, k.high i ge);
  high' = λ i ge. bit-bit_xor y q i ∙ ground (arith, h.high' i ge, k.high' i ge);
  mirror = λ i lt.
      bit-bit_xor x p i ∙ ground (arith, h.mirror i lt, k.mirror i lt, bit-bit_xor y q (15 - i));
}

-- a shifted register with a polynomial added or not
added-Mirrors :
    (x y p q : ℕ) (b : Bool)
    → Mirrors x y
    → Mirrors p q
    → Mirrors (bit_xor x (if b then p else 0)) (bit_xor y (if b then q else 0))
added-Mirrors x y p q true h k = xor-Mirrors x y p q h k
added-Mirrors x y p q false h k = xor-Mirrors x y 0 0 h zero-Mirrors

shifted-Mirrors : (x y : ℕ) → Mirrors x y → Mirrors (x * 2 % 2 ^ 16) (y / 2)
shifted-Mirrors x y h = record {
  high = λ i ge. bit-mod 16 (x * 2) i ∙ ground arith;
  high' = λ i ge. bit-half y i ∙ h.high' (suc i) (omega arith);
  mirror = λ i lt. bit-mod 16 (x * 2) i ∙ moved i lt;
}
  where
    moved : (i : ℕ) → i < 16 → (ltb i 16 && bit (x * 2) i) ≡ bit (y / 2) (15 - i)
    moved zero lt = ground (arith, bit-double_low x, bit-half y 15, h.high' 16 (omega arith))
    moved (suc i) lt =
        let e : 15 - i ≡ suc (15 - suc i) = omega arith in
        let m : bit x i ≡ bit (y / 2) (15 - suc i) =
          h.mirror i (omega arith) ∙ ap (λ j. bit y j) e ∙ sym (bit-half y (15 - suc i)) in
        ground (arith, bit-double x i, m)

step-Mirrors :
    (x y p q : ℕ) (b : Bool)
    → Mirrors x y
    → Mirrors p q
    → Mirrors (crc_step x (to_ℕ b) p true) (crc_step y (to_ℕ b) q false)
unfolding crc_step
step-Mirrors x y p q b h k =
    let same : x / 2 ^ 15 % 2 ≡ y % 2 = top x ∙ ap to_ℕ (h.mirror 15 (omega arith)) ∙ sym (low y) in
    rw same (added-Mirrors (x * 2 % 2 ^ 16) (y / 2) p q _ (shifted-Mirrors x y h) k)

-- For each of the presets and each message, the MSB-first register with the normal polynomial is the
-- mirror image of the LSB-first register with the reflected polynomial, if it was before the message.
pub crc_of-Mirrors :
    (preset : ℕ) (bits : List Bool) (x y : ℕ)
    → Mirrors x y
    → Mirrors (crc_of preset true x bits) (crc_of preset false y bits)
unfolding crc_of
crc_of-Mirrors preset [] x y h = h
crc_of-Mirrors preset (b ∷ bits) x y h = crc_of-Mirrors preset bits _ _ (
    step-Mirrors x y (preset_polynomial preset true) (preset_polynomial preset false) b h
      (preset-Mirrors preset))
