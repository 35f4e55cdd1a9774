-- ===== src/Prelude/Lists.antt =====
-- Python lists and deques over native indices, under the library's names.
use Prim.Native.Nat.{ℕ, zero, suc, ◌+◌, ◌<◌, ◌≤◌}
use mathlib.Core.Path.{◌≡◌, refl, ap, ◌∙◌}
use mathlib.Core.Logic.{◌≢◌}
use mathlib.Core.Bool.{Bool, true, false, ◌||◌, ◌&&◌}
use mathlib.Core.List.{List, [], ◌∷◌, ◌++◌, map}
use mathlib.Core.Option.{Option, none, some}
use ttihp_protocol_emulator.Prelude.Tests.{ltb, ◌==◌, if◌then◌else◌}
use native.Mathlib.Omega.{arith}

module _ {ℓ} {A : Type ℓ} where
  abbrev pub length : List A → ℕ
  length [] = 0
  length (_ ∷ xs) = suc (length xs)

  -- `xs[i]`, with a default in the place of `IndexError`
  abbrev pub get_or : List A → ℕ → A → A
  get_or [] _ d = d
  get_or (x ∷ _) zero _ = x
  get_or (_ ∷ xs) (suc i) d = get_or xs i d

  abbrev pub get_elem? : List A → ℕ → Option A
  get_elem? [] _ = none
  get_elem? (x ∷ _) zero = some x
  get_elem? (_ ∷ xs) (suc i) = get_elem? xs i

  -- `xs[i] = v`; out of range nothing is written
  abbrev pub set : List A → ℕ → A → List A
  set [] _ _ = []
  set (_ ∷ xs) zero v = v ∷ xs
  set (x ∷ xs) (suc i) v = x ∷ set xs i v

  abbrev pub replicate : ℕ → A → List A
  replicate zero _ = []
  replicate (suc n) a = a ∷ replicate n a

  -- `bool(xs)` and `popleft`, which leaves an empty queue as it is
  abbrev pub nonempty : List A → Bool
  nonempty [] = false
  nonempty (_ ∷ _) = true

  abbrev pub popleft : List A → List A
  popleft [] = []
  popleft (_ ∷ xs) = xs

  -- `any(p(x) for x in xs)` and `all`
  abbrev pub any : (A → Bool) → List A → Bool
  any p [] = false
  any p (x ∷ xs) = p x || any p xs

  pub length-append : (xs ys : List A) → length (xs ++ ys) ≡ length xs + length ys
  length-append [] ys = omega arith
  length-append (x ∷ xs) ys = omega (arith, length-append xs ys)

  pub length-replicate : (n : ℕ) (a : A) → length (replicate n a) ≡ n
  length-replicate zero a = refl
  length-replicate (suc n) a = ap suc (length-replicate n a)

  pub length-set : (xs : List A) (i : ℕ) (v : A) → length (set xs i v) ≡ length xs
  length-set [] i v = refl
  length-set (x ∷ xs) zero v = refl
  length-set (x ∷ xs) (suc i) v = ap suc (length-set xs i v)

  pub get_or-set_self :
      (xs : List A) (i : ℕ) (v d : A) → i < length xs → get_or (set xs i v) i d ≡ v
  get_or-set_self [] i v d h = absurd (omega arith)
  get_or-set_self (x ∷ xs) zero v d h = refl
  get_or-set_self (x ∷ xs) (suc i) v d h = get_or-set_self xs i v d (omega arith)

  pub get_or-set_ne :
      (xs : List A) (i j : ℕ) (v d : A) → i ≢ j → get_or (set xs i v) j d ≡ get_or xs j d
  get_or-set_ne [] i j v d h = refl
  get_or-set_ne (x ∷ xs) zero zero v d h = absurd (h refl)
  get_or-set_ne (x ∷ xs) zero (suc j) v d h = refl
  get_or-set_ne (x ∷ xs) (suc i) zero v d h = refl
  get_or-set_ne (x ∷ xs) (suc i) (suc j) v d h = get_or-set_ne xs i j v d (λ e. h (ap suc e))

  pub get_or-replicate : (n i : ℕ) (a : A) → get_or (replicate n a) i a ≡ a
  get_or-replicate zero i a = refl
  get_or-replicate (suc n) zero a = refl
  get_or-replicate (suc n) (suc i) a = get_or-replicate n i a

module _ {ℓ κ} {A : Type ℓ} {B : Type κ} where
  pub length-map : (f : A → B) (xs : List A) → length (map f xs) ≡ length xs
  length-map f [] = refl
  length-map f (x ∷ xs) = ap suc (length-map f xs)

  pub get_or-map :
      (f : A → B) (xs : List A) (i : ℕ) (d : A) → get_or (map f xs) i (f d) ≡ f (get_or xs i d)
  get_or-map f [] i d = refl
  get_or-map f (x ∷ xs) zero d = refl
  get_or-map f (x ∷ xs) (suc i) d = get_or-map f xs i d

  pub get_or-map_lt :
      (f : A → B) (xs : List A) (i : ℕ) (d : A) (d' : B)
      → i < length xs
      → get_or (map f xs) i d' ≡ f (get_or xs i d)
  get_or-map_lt f [] i d d' h = absurd (omega arith)
  get_or-map_lt f (x ∷ xs) zero d d' h = refl
  get_or-map_lt f (x ∷ xs) (suc i) d d' h = get_or-map_lt f xs i d d' (omega arith)

  -- `for i, x in enumerate(xs)`, from the index `i` on
  abbrev pub map_from : ℕ → (ℕ → A → B) → List A → List B
  map_from i f [] = []
  map_from i f (x ∷ xs) = f i x ∷ map_from (suc i) f xs

  pub length-map_from : (i : ℕ) (f : ℕ → A → B) (xs : List A) → length (map_from i f xs) ≡ length xs
  length-map_from i f [] = refl
  length-map_from i f (x ∷ xs) = ap suc (length-map_from (suc i) f xs)

  pub get_or-map_from :
      (i : ℕ) (f : ℕ → A → B) (xs : List A) (j : ℕ) (d : A) (d' : B)
      → j < length xs
      → get_or (map_from i f xs) j d' ≡ f (i + j) (get_or xs j d)
  get_or-map_from i f [] j d d' h = absurd (omega arith)
  get_or-map_from i f (x ∷ xs) zero d d' h = ap (λ k. f k x) (omega arith)
  get_or-map_from i f (x ∷ xs) (suc j) d d' h =
      get_or-map_from (suc i) f xs j d d' (omega arith)
      ∙ ap (λ k. f k (get_or xs j d)) (omega arith)

  pub get_or-enumerate :
      (f : ℕ → A → B) (xs : List A) (j : ℕ) (d : A) (d' : B)
      → j < length xs
      → get_or (map_from 0 f xs) j d' ≡ f j (get_or xs j d)
  get_or-enumerate f xs j d d' h =
      get_or-map_from 0 f xs j d d' h ∙ ap (λ k. f k (get_or xs j d)) (omega arith)

module _ {ℓ} {A : Type ℓ} where
  -- `any(p(i, x) for i, x in enumerate(xs))`
  abbrev pub any_from : ℕ → (ℕ → A → Bool) → List A → Bool
  any_from i p [] = false
  any_from i p (x ∷ xs) = p i x || any_from (suc i) p xs

  -- `f(xs[i])` in the place of `xs[i]`
  abbrev pub modify : List A → ℕ → A → (A → A) → List A
  modify xs i d f = set xs i (f (get_or xs i d))

  pub get_or-set :
      (xs : List A) (k i : ℕ) (v d : A)
      → get_or (set xs k v) i d ≡ (if k == i && ltb k (length xs) then v else get_or xs i d)
  get_or-set [] k i v d = ground arith
  get_or-set (x ∷ xs) zero zero v d = ground arith
  get_or-set (x ∷ xs) zero (suc i) v d = ground arith
  get_or-set (x ∷ xs) (suc k) zero v d = ground arith
  get_or-set (x ∷ xs) (suc k) (suc i) v d = ground (arith, get_or-set xs k i v d)

  pub get_or_outside : (xs : List A) (i : ℕ) (d : A) → length xs ≤ i → get_or xs i d ≡ d
  get_or_outside [] i d h = refl
  get_or_outside (x ∷ xs) zero d h = absurd (omega arith)
  get_or_outside (x ∷ xs) (suc i) d h = get_or_outside xs i d (omega arith)

module _ {ℓ κ μ} {A : Type ℓ} {B : Type κ} {C : Type μ} where
  pub map_from-map_from :
      (i : ℕ) (g : ℕ → B → C) (f : ℕ → A → B) (xs : List A)
      → map_from i g (map_from i f xs) ≡ map_from i (λ j x. g j (f j x)) xs
  map_from-map_from i g f [] = refl
  map_from-map_from i g f (x ∷ xs) = ap (λ r. g i (f i x) ∷ r) (map_from-map_from (suc i) g f xs)

pub append-nil {ℓ} : {A : Type ℓ} (xs : List A) → xs ++ [] ≡ xs
append-nil [] = refl
append-nil (x ∷ xs) = ap (λ r. x ∷ r) (append-nil xs)

pub append_assoc {ℓ} : {A : Type ℓ} (xs ys zs : List A) → (xs ++ ys) ++ zs ≡ xs ++ (ys ++ zs)
append_assoc [] ys zs = refl
append_assoc (x ∷ xs) ys zs = ap (λ r. x ∷ r) (append_assoc xs ys zs)
