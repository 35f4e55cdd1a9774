-- ===== src/Prelude/Widths.antt =====
-- Numbers of a width: what is below `2 ^ k` has no bit from `k` on, and the bit operations keep to it.
use Prim.Native.Nat.{ℕ, zero, suc, ◌+◌, ◌-◌, ◌*◌, ◌/◌, ◌%◌, ◌^◌, ◌≤◌, ◌<◌, bit_or}
use mathlib.Core.Path.{◌≡◌, refl, sym, ap, subst, ◌∙◌}
use mathlib.Core.Bool.{Bool, true, false, ◌&&◌, ◌||◌}
use native.Mathlib.Omega.{arith}
use native.Mathlib.Nat.{pow-succ', mod-lt, mod-eq_of_lt, div-div-eq-div-mul}
use ttihp_protocol_emulator.Prelude.Tests.{◌==◌, if◌then◌else◌, to_ℕ}
use ttihp_protocol_emulator.Prelude.Bits.{
  bit, and_not, bit-zero, bit-mod, bit-pow, bit-bit_or, bit-and_not, bits-eq,
}

pub pow_positive : (n : ℕ) → 0 < 2 ^ n
pow_positive zero = omega arith
pow_positive (suc n) = rw pow-succ' (omega (arith, pow_positive n))

pub pow_add : (a b : ℕ) → 2 ^ (a + b) ≡ 2 ^ a * 2 ^ b
pow_add zero b = let none_more : 0 + b ≡ b = omega arith in ap (λ n. 2 ^ n) none_more ∙ omega arith
pow_add (suc a) b =
    let one_more : suc a + b ≡ suc (a + b) = omega arith in
    ap (λ n. 2 ^ n) one_more
    ∙ rw (pow-succ', pow-succ') (ap (λ n. 2 * n) (pow_add a b) ∙ grind arith)

pub pow-le : (a b : ℕ) → a ≤ b → 2 ^ a ≤ 2 ^ b
pow-le a b h =
    let above : b ≡ a + (b - a) = omega arith in
    subst (λ n. 2 ^ a ≤ n) (sym (ap (λ n. 2 ^ n) above ∙ pow_add a (b - a)))
      (let more : 0 < 2 ^ (b - a) = pow_positive (b - a) in grind arith)

pub bit_or_comm : (a b : ℕ) → bit_or a b ≡ bit_or b a
bit_or_comm a b = bits-eq _ _ (λ i. ground (arith, bit-bit_or a b i, bit-bit_or b a i))

-- A number below `2 ^ p` and a multiple of it share no bit.
pub bit-sum : (p a b i : ℕ) → a < 2 ^ p → bit (a + b * 2 ^ p) i ≡ (bit a i || bit (b * 2 ^ p) i)
unfolding bit
bit-sum zero a b i h =
    let none_there : a ≡ 0 = omega arith in
    rw (none_there, bit-zero) (ap (λ n. bit n i) (omega arith))
bit-sum (suc p) a b zero h =
    let e : b * 2 ^ suc p ≡ 2 * (b * 2 ^ p) = rw pow-succ' (omega arith) in ground (arith, e)
bit-sum (suc p) a b (suc i) h =
    let e : b * 2 ^ suc p ≡ 2 * (b * 2 ^ p) = rw pow-succ' (omega arith) in
    let half : (a + b * 2 ^ suc p) / 2 ≡ a / 2 + b * 2 ^ p = omega (arith, e) in
    let half' : b * 2 ^ suc p / 2 ≡ b * 2 ^ p = omega (arith, e) in
    let small : a < 2 * 2 ^ p = rw pow-succ' at h in
    ap (λ n. bit n i) half
    ∙ bit-sum p (a / 2) b i (omega (arith, small))
    ∙ ap (λ n. bit (a / 2) i || bit n i) (sym half')

pub bit_or_sum : (p a b : ℕ) → a < 2 ^ p → bit_or a (b * 2 ^ p) ≡ a + b * 2 ^ p
bit_or_sum p a b h = bits-eq _ _ (λ i. bit-bit_or a (b * 2 ^ p) i ∙ sym (bit-sum p a b i h))

-- No bit at or above the width.
pub bit-lt : (k a i : ℕ) → a < 2 ^ k → k ≤ i → bit a i ≡ false
bit-lt k a i h p =
    let same : a % 2 ^ k ≡ a = mod-eq_of_lt h in
    ap (λ n. bit n i) (sym same) ∙ bit-mod k a i ∙ ground arith

pub lt-bit : (k a : ℕ) → ((i : ℕ) → k ≤ i → bit a i ≡ false) → a < 2 ^ k
lt-bit k a h =
    let low : (i : ℕ) → bit a i ≡ bit (a % 2 ^ k) i =
      λ i. sym (bit-mod k a i ∙ ground (arith, h i)) in
    subst (λ n. n < 2 ^ k) (sym (bits-eq a (a % 2 ^ k) low)) (mod-lt a (pow_positive k))

pub bit_or-lt : (k a b : ℕ) → a < 2 ^ k → b < 2 ^ k → bit_or a b < 2 ^ k
bit_or-lt k a b p q =
    lt-bit k (bit_or a b)
      (λ i h. bit-bit_or a b i ∙ ground (arith, bit-lt k a i p h, bit-lt k b i q h))

pub and_not-lt : (k a b : ℕ) → a < 2 ^ k → and_not a b < 2 ^ k
and_not-lt k a b p =
    lt-bit k (and_not a b) (λ i h. bit-and_not a b i ∙ ground (arith, bit-lt k a i p h))

pub pow-lt : (k p : ℕ) → p < k → 2 ^ p < 2 ^ k
pow-lt k p h = lt-bit k (2 ^ p) (λ i q. bit-pow p i ∙ ground (arith, h))

-- `n >> k & 1` is the bit `k` of `n`.
pub bit-div_pow : (k n i : ℕ) → bit (n / 2 ^ k) i ≡ bit n (k + i)
unfolding bit
bit-div_pow zero n i =
    let whole : n / 2 ^ 0 ≡ n = omega arith in
    let here : i ≡ 0 + i = omega arith in ap (λ m. bit m i) whole ∙ ap (λ j. bit n j) here
bit-div_pow (suc k) n i =
    let split : n / 2 ^ suc k ≡ n / 2 / 2 ^ k =
      rw pow-succ' (sym (div-div-eq-div-mul n 2 (2 ^ k))) in
    let later : suc k + i ≡ suc (k + i) = omega arith in
    ap (λ m. bit m i) split ∙ bit-div_pow k (n / 2) i ∙ sym (ap (λ j. bit n j) later)

pub bit-digit : (n i : ℕ) → bit n i ≡ (n / 2 ^ i % 2 == 1)
bit-digit n i =
    let same : i ≡ i + 0 = omega arith in
    ap (λ j. bit n j) same ∙ sym (bit-div_pow i n 0) ∙ unfold bit in refl

-- `n << k` has the bits of `n`, from the bit `k` on.
pub bit-mul_pow : (k n i : ℕ) → bit (n * 2 ^ k) (k + i) ≡ bit n i
unfolding bit
bit-mul_pow zero n i =
    let whole : n * 2 ^ 0 ≡ n = omega arith in
    let here : 0 + i ≡ i = omega arith in ap (λ m. bit m (0 + i)) whole ∙ ap (λ j. bit n j) here
bit-mul_pow (suc k) n i =
    let twice : n * 2 ^ suc k ≡ 2 * (n * 2 ^ k) = rw pow-succ' (omega arith) in
    let half : n * 2 ^ suc k / 2 ≡ n * 2 ^ k = omega (arith, twice) in
    let later : suc k + i ≡ suc (k + i) = omega arith in
    ap (λ j. bit (n * 2 ^ suc k) j) later ∙ ap (λ m. bit m (k + i)) half ∙ bit-mul_pow k n i

pub bit-mul_pow_low : (k n i : ℕ) → i < k → bit (n * 2 ^ k) i ≡ false
unfolding bit
bit-mul_pow_low zero n i h = absurd (omega arith)
bit-mul_pow_low (suc k) n zero h =
    let twice : n * 2 ^ suc k ≡ 2 * (n * 2 ^ k) = rw pow-succ' (omega arith) in
    ground (arith, twice)
bit-mul_pow_low (suc k) n (suc i) h =
    let twice : n * 2 ^ suc k ≡ 2 * (n * 2 ^ k) = rw pow-succ' (omega arith) in
    let half : n * 2 ^ suc k / 2 ≡ n * 2 ^ k = omega (arith, twice) in
    ap (λ m. bit m i) half ∙ bit-mul_pow_low k n i (omega arith)

-- `reg & ~(1 << pin) | level << pin`
unfoldable pub put_bit : ℕ → ℕ → Bool → ℕ
put_bit reg pin level = bit_or (and_not reg (2 ^ pin)) (to_ℕ level * 2 ^ pin)

level-pow : (level : Bool) (pin i : ℕ) → bit (to_ℕ level * 2 ^ pin) i ≡ (level && pin == i)
level-pow false pin i = ap (λ n. bit n i) (let e : 0 * 2 ^ pin ≡ 0 = omega arith in e) ∙ bit-zero i
level-pow true pin i =
    ap (λ n. bit n i) (let e : 1 * 2 ^ pin ≡ 2 ^ pin = omega arith in e) ∙ bit-pow pin i

pub bit-put_bit :
    (reg pin : ℕ) (level : Bool) (i : ℕ)
    → bit (put_bit reg pin level) i ≡ (if pin == i then level else bit reg i)
unfolding put_bit
bit-put_bit reg pin level i = ground (
  arith,
  bit-bit_or (and_not reg (2 ^ pin)) (to_ℕ level * 2 ^ pin) i,
  bit-and_not reg (2 ^ pin) i,
  bit-pow pin i,
  level-pow level pin i,
)

pub put_bit-lt :
    (k reg pin : ℕ) (level : Bool) → reg < 2 ^ k → pin < k → put_bit reg pin level < 2 ^ k
put_bit-lt k reg pin level p q =
    lt-bit k (put_bit reg pin level)
      (λ i h. bit-put_bit reg pin level i ∙ ground (arith, q, bit-lt k reg i p h))
