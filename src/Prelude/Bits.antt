-- ===== src/Prelude/Bits.antt =====
-- The bits of a Python `int` that is not negative, and what `&`, `|`, `^` and `& ~` do to each.
use Prim.Native.Nat.{
  ℕ, zero, suc, ◌+◌, ◌*◌, ◌/◌, ◌%◌, ◌^◌, ◌≤◌, ◌<◌, min, max, digits, differ, bit_and, bit_or,
  bit_xor, bit_and-bitwise, bit_or-bitwise, bit_xor-bitwise,
}
use mathlib.Core.Path.{◌≡◌, refl, sym, ap, ◌∙◌}
use mathlib.Core.Bool.{Bool, true, false, not, ◌&&◌, ◌||◌}
use native.Mathlib.Omega.{arith}
use native.Mathlib.Nat.{pow-suc, pow-succ', mod-eq-sub-mul-div, mul-div-le, div-div-eq-div-mul}
use ttihp_protocol_emulator.Prelude.Tests.{◌==◌, ltb}

-- `n >> i & 1`, as a truth value
unfoldable pub bit : ℕ → ℕ → Bool
bit n zero = n % 2 == 1
bit n (suc i) = bit (n / 2) i

-- `n & ~m`
unfoldable pub and_not : ℕ → ℕ → ℕ
and_not n m = bit_xor n (bit_and n m)

-- exclusive or of two truth values
abbrev pub differs : Bool → Bool → Bool
differs false b = b
differs true b = not b

pub bit-zero : (i : ℕ) → bit 0 i ≡ false
unfolding bit
bit-zero zero = refl
bit-zero (suc i) = bit-zero i

bit-add_zero : (q r : ℕ) → bit (q * 2 + r) 0 ≡ (r % 2 == 1)
unfolding bit
bit-add_zero q r = ground arith

bit-add_suc : (q r i : ℕ) → r < 2 → bit (q * 2 + r) (suc i) ≡ bit q i
unfolding bit
bit-add_suc q r i h = ap (λ n. bit n i) (omega arith)

-- One law for the three operations, which are one recursion on binary digits.
module _ (z : ℕ → ℕ) (f : ℕ → ℕ → ℕ) (g : Bool → Bool → Bool)
    (base : (b i : ℕ) → bit (z b) i ≡ g false (bit b i))
    (small : (x y : ℕ) → x < 2 → y < 2 → f x y < 2)
    (low : (x y : ℕ) → x < 2 → y < 2 → (f x y % 2 == 1) ≡ g (x == 1) (y == 1)) where
  bit-digits : (n a b i : ℕ) → a ≤ n → bit (digits z f n a b) i ≡ g (bit a i) (bit b i)
  unfolding bit
  bit-digits zero zero b i h = base b i ∙ ap (λ t. g t (bit b i)) (sym (bit-zero i))
  bit-digits zero (suc a) b i h = absurd (omega arith)
  bit-digits (suc n) zero b i h = base b i ∙ ap (λ t. g t (bit b i)) (sym (bit-zero i))
  bit-digits (suc n) (suc a) b zero h =
      bit-add_zero (digits z f n (suc a / 2) (b / 2)) (f (suc a % 2) (b % 2))
      ∙ (low (suc a % 2) (b % 2) (omega arith) (omega arith))
  bit-digits (suc n) (suc a) b (suc i) h =
      bit-add_suc (digits z f n (suc a / 2) (b / 2)) (f (suc a % 2) (b % 2)) i
        (small _ _ (omega arith) (omega arith))
      ∙ bit-digits n (suc a / 2) (b / 2) i (omega arith)

pub bit-bit_and : (a b i : ℕ) → bit (bit_and a b) i ≡ (bit a i && bit b i)
bit-bit_and a b i = rw bit_and-bitwise (
    bit-digits (λ _. 0) min ◌&&◌ (λ b i. bit-zero i) (λ x y p q. omega arith)
      (λ x y p q. ground arith) a a b i (omega arith))

pub bit-bit_or : (a b i : ℕ) → bit (bit_or a b) i ≡ (bit a i || bit b i)
bit-bit_or a b i = rw bit_or-bitwise (
    bit-digits (λ b. b) max ◌||◌ (λ b i. refl) (λ x y p q. omega arith) (λ x y p q. ground arith) a
      a b i (omega arith))

differ-lt : (x y : ℕ) → x < 2 → y < 2 → differ x y < 2
differ-lt zero y p q = q
differ-lt (suc x) zero p q = p
differ-lt (suc x) (suc y) p q = differ-lt x y (omega arith) (omega arith)

differ-low : (x y : ℕ) → x < 2 → y < 2 → (differ x y % 2 == 1) ≡ differs (x == 1) (y == 1)
differ-low zero zero p q = refl
differ-low zero (suc zero) p q = refl
differ-low zero (suc (suc y)) p q = absurd (omega arith)
differ-low (suc zero) zero p q = refl
differ-low (suc zero) (suc zero) p q = refl
differ-low (suc zero) (suc (suc y)) p q = absurd (omega arith)
differ-low (suc (suc x)) y p q = absurd (omega arith)

pub bit-bit_xor : (a b i : ℕ) → bit (bit_xor a b) i ≡ differs (bit a i) (bit b i)
bit-bit_xor a b i =
    rw bit_xor-bitwise
      (bit-digits (λ b. b) differ differs (λ b i. refl) differ-lt differ-low a a b i (omega arith))

pub bit-and_not : (a b i : ℕ) → bit (and_not a b) i ≡ (bit a i && not (bit b i))
unfolding and_not
bit-and_not a b i = ground (arith, bit-bit_xor a (bit_and a b) i, bit-bit_and a b i)

-- `1 << p` has one bit.
pub bit-pow : (p i : ℕ) → bit (2 ^ p) i ≡ (p == i)
unfolding bit
bit-pow zero zero = refl
bit-pow zero (suc i) = bit-zero i ∙ ground arith
bit-pow (suc p) zero = ground (arith, pow-suc 2 p)
bit-pow (suc p) (suc i) =
    ap (λ n. bit n i) (omega (arith, pow-suc 2 p)) ∙ bit-pow p i ∙ ground arith

mod_double : (m n : ℕ) → n % (2 * m) ≡ 2 * (n / 2 % m) + n % 2
mod_double m n = omega (
  arith,
  mod-eq-sub-mul-div n (2 * m),
  mod-eq-sub-mul-div (n / 2) m,
  mul-div-le (n / 2) m,
  ap (λ (q : ℕ). m * q) (div-div-eq-div-mul n 2 m),
)

-- `& (2 ** k - 1)` keeps the low bits.
pub bit-mod : (k n i : ℕ) → bit (n % 2 ^ k) i ≡ (ltb i k && bit n i)
unfolding bit
bit-mod zero n i =
    ap (λ n. bit n i) (let e : n % 2 ^ 0 ≡ 0 = omega arith in e) ∙ bit-zero i ∙ ground arith
bit-mod (suc k) n zero =
    let e : n % 2 ^ suc k ≡ 2 * (n / 2 % 2 ^ k) + n % 2 = rw pow-succ' (mod_double (2 ^ k) n) in
    ground (arith, e)
bit-mod (suc k) n (suc i) =
    ap (λ n. bit n i)
      (let e : n % 2 ^ suc k ≡ 2 * (n / 2 % 2 ^ k) + n % 2 = rw pow-succ' (mod_double (2 ^ k) n) in
        let e' : n % 2 ^ suc k / 2 ≡ n / 2 % 2 ^ k = omega (arith, e) in e')
    ∙ bit-mod k (n / 2) i
    ∙ ground arith

-- Two numbers with the same bits are equal.
bits-eq_fuel : (k a b : ℕ) → a ≤ k → b ≤ k → ((i : ℕ) → bit a i ≡ bit b i) → a ≡ b
unfolding bit
bits-eq_fuel zero a b p q h = omega arith
bits-eq_fuel (suc k) a b p q h =
    ground (arith, bits-eq_fuel k (a / 2) (b / 2) (omega arith) (omega arith) (λ i. h (suc i)), h 0)

pub bits-eq : (a b : ℕ) → ((i : ℕ) → bit a i ≡ bit b i) → a ≡ b
bits-eq a b h = bits-eq_fuel (a + b) a b (omega arith) (omega arith) h

-- `not (a & ~b)` says that every bit of `a` is one of `b`.
pub subset_of-and_not : (a b i : ℕ) → and_not a b ≡ 0 → bit a i ≡ true → bit b i ≡ true
subset_of-and_not a b i h p = ground (arith, bit-and_not a b i, ap (λ n. bit n i) h, bit-zero i)

-- `not (a & b)` says that no bit is one of both.
pub disjoint_of-bit_and : (a b i : ℕ) → bit_and a b ≡ 0 → bit a i ≡ true → bit b i ≡ false
disjoint_of-bit_and a b i h p = ground (arith, bit-bit_and a b i, ap (λ n. bit n i) h, bit-zero i)
