-- ===== src/Host/Driver/Words/Joined.antt =====
-- The word that `read_word` of host/pe_host/host.py puts together from eight nibbles.
use ttihp_protocol_emulator.Prelude.{
  ℕ, suc, ◌+◌, ◌*◌, ◌/◌, ◌%◌, ◌^◌, ◌<◌, bit_or, List, [], ◌∷◌, length, ◌≡◌, refl, ap, ◌∙◌, arith,
}
use ttihp_protocol_emulator.Prelude.Widths.{bit_or_sum}
use ttihp_protocol_emulator.Host.{nibbles}
use ttihp_protocol_emulator.Host.Driver.Words.{Log, given}

-- the number that nibbles make, the first at the bit 4 n
unfoldable pub joins : ℕ → List ℕ → ℕ → ℕ
joins n [] result = result
joins n (x ∷ xs) result = joins (suc n) xs (bit_or result (x * 2 ^ (4 * n)))

abbrev pub Small : List ℕ → Type 0
Small [] = Unit
Small (x ∷ xs) = (x < 16) × Small xs

pub given-Small : (log : Log) → Small (given log)
unfolding given
given-Small [] = tt
given-Small ((ui, uo) ∷ log) = ground (arith, given-Small log)

-- the number with these digits, the lowest first
abbrev value : ℕ → ℕ → ℕ → ℕ → ℕ → ℕ → ℕ → ℕ → ℕ
value x₀ x₁ x₂ x₃ x₄ x₅ x₆ x₇ =
    x₀
    + x₁ * 2 ^ 4
    + x₂ * 2 ^ 8
    + x₃ * 2 ^ 12
    + x₄ * 2 ^ 16
    + x₅ * 2 ^ 20
    + x₆ * 2 ^ 24
    + x₇ * 2 ^ 28

joined_value :
    (x₀ x₁ x₂ x₃ x₄ x₅ x₆ x₇ : ℕ)
    → Small (x₀ ∷ x₁ ∷ x₂ ∷ x₃ ∷ x₄ ∷ x₅ ∷ x₆ ∷ x₇ ∷ [])
    → joins 0 (x₀ ∷ x₁ ∷ x₂ ∷ x₃ ∷ x₄ ∷ x₅ ∷ x₆ ∷ x₇ ∷ []) 0 ≡ value x₀ x₁ x₂ x₃ x₄ x₅ x₆ x₇
unfolding joins
joined_value x₀ x₁ x₂ x₃ x₄ x₅ x₆ x₇ k =
    let s₀ : bit_or 0 (x₀ * 2 ^ 0) ≡ x₀ = bit_or_sum 0 0 x₀ (omega arith) ∙ omega arith in
    let s₁ = bit_or_sum 4 (x₀) x₁ (omega arith) in
    let s₂ = bit_or_sum 8 (x₀ + x₁ * 2 ^ 4) x₂ (omega arith) in
    let s₃ = bit_or_sum 12 (x₀ + x₁ * 2 ^ 4 + x₂ * 2 ^ 8) x₃ (omega arith) in
    let s₄ = bit_or_sum 16 (x₀ + x₁ * 2 ^ 4 + x₂ * 2 ^ 8 + x₃ * 2 ^ 12) x₄ (omega arith) in
    let s₅ =
      bit_or_sum 20 (x₀ + x₁ * 2 ^ 4 + x₂ * 2 ^ 8 + x₃ * 2 ^ 12 + x₄ * 2 ^ 16) x₅ (omega arith) in
    let s₆ =
      bit_or_sum 24 (x₀ + x₁ * 2 ^ 4 + x₂ * 2 ^ 8 + x₃ * 2 ^ 12 + x₄ * 2 ^ 16 + x₅ * 2 ^ 20) x₆
        (omega arith) in
    let s₇ =
      bit_or_sum 28
        (x₀ + x₁ * 2 ^ 4 + x₂ * 2 ^ 8 + x₃ * 2 ^ 12 + x₄ * 2 ^ 16 + x₅ * 2 ^ 20 + x₆ * 2 ^ 24) x₇
        (omega arith) in
    rw (s₀, s₁, s₂, s₃, s₄, s₅, s₆, s₇) refl

digits_of :
    (x₀ x₁ x₂ x₃ x₄ x₅ x₆ x₇ : ℕ)
    → Small (x₀ ∷ x₁ ∷ x₂ ∷ x₃ ∷ x₄ ∷ x₅ ∷ x₆ ∷ x₇ ∷ [])
    → nibbles (value x₀ x₁ x₂ x₃ x₄ x₅ x₆ x₇) ≡ x₀ ∷ x₁ ∷ x₂ ∷ x₃ ∷ x₄ ∷ x₅ ∷ x₆ ∷ x₇ ∷ []
unfolding nibbles
digits_of x₀ x₁ x₂ x₃ x₄ x₅ x₆ x₇ k =
    let w = value x₀ x₁ x₂ x₃ x₄ x₅ x₆ x₇ in
    let d₀ : w / 2 ^ 0 % 16 ≡ x₀ = omega arith in
    let d₁ : w / 2 ^ 4 % 16 ≡ x₁ = omega arith in
    let d₂ : w / 2 ^ 8 % 16 ≡ x₂ = omega arith in
    let d₃ : w / 2 ^ 12 % 16 ≡ x₃ = omega arith in
    let d₄ : w / 2 ^ 16 % 16 ≡ x₄ = omega arith in
    let d₅ : w / 2 ^ 20 % 16 ≡ x₅ = omega arith in
    let d₆ : w / 2 ^ 24 % 16 ≡ x₆ = omega arith in
    let d₇ : w / 2 ^ 28 % 16 ≡ x₇ = omega arith in
    λ i. d₀ i ∷ d₁ i ∷ d₂ i ∷ d₃ i ∷ d₄ i ∷ d₅ i ∷ d₆ i ∷ d₇ i ∷ []

-- Eight nibbles make the word that has them.
pub joins-nibbles : (xs : List ℕ) → length xs ≡ 8 → Small xs → nibbles (joins 0 xs 0) ≡ xs
joins-nibbles [] h k = absurd (omega arith)
joins-nibbles (x₀ ∷ []) h k = absurd (omega arith)
joins-nibbles (x₀ ∷ x₁ ∷ []) h k = absurd (omega arith)
joins-nibbles (x₀ ∷ x₁ ∷ x₂ ∷ []) h k = absurd (omega arith)
joins-nibbles (x₀ ∷ x₁ ∷ x₂ ∷ x₃ ∷ []) h k = absurd (omega arith)
joins-nibbles (x₀ ∷ x₁ ∷ x₂ ∷ x₃ ∷ x₄ ∷ []) h k = absurd (omega arith)
joins-nibbles (x₀ ∷ x₁ ∷ x₂ ∷ x₃ ∷ x₄ ∷ x₅ ∷ []) h k = absurd (omega arith)
joins-nibbles (x₀ ∷ x₁ ∷ x₂ ∷ x₃ ∷ x₄ ∷ x₅ ∷ x₆ ∷ []) h k = absurd (omega arith)
joins-nibbles (x₀ ∷ x₁ ∷ x₂ ∷ x₃ ∷ x₄ ∷ x₅ ∷ x₆ ∷ x₇ ∷ []) h k =
    ap nibbles (joined_value x₀ x₁ x₂ x₃ x₄ x₅ x₆ x₇ k) ∙ digits_of x₀ x₁ x₂ x₃ x₄ x₅ x₆ x₇ k
joins-nibbles (x₀ ∷ x₁ ∷ x₂ ∷ x₃ ∷ x₄ ∷ x₅ ∷ x₆ ∷ x₇ ∷ y ∷ ys) h k = absurd (omega arith)
