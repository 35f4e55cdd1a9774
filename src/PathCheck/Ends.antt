-- ===== src/PathCheck/Ends.antt =====
-- The search of `check_program` in host/pio/pathcheck.py ends, on every program.
use ttihp_protocol_emulator.Prelude.{
  ℕ, zero, suc, ◌+◌, ◌*◌, ◌%◌, ◌^◌, ◌<◌, ◌≤◌, ◌≡◌, ◌≢◌, refl, sym, ap, ◌∙◌, subst, Bool, true,
  false, none, some, List, [], ◌∷◌, ◌++◌, length, get_or, get_elem?, set, replicate, if◌then◌else◌,
  length-set, length-replicate, arith, Bool-cases, Option-cases, inl, inr,
}
use ttihp_protocol_emulator.Prelude.Results.{Result, ok, raise, ◌>>=◌}
use ttihp_protocol_emulator.Prelude.Widths.{pow-le}
use ttihp_protocol_emulator.PathCheck.{
  Stop, Program, Explored, range, successors, push_all, next_slot, is_seen, visit, explore,
  nothing_seen, enough, block_errors, check_program, addr_fetch, drive_slot,
}

-- the states that are not seen yet
unfoldable pub unseen : List Bool → ℕ
unseen [] = 0
unseen (b ∷ bs) = (if b then 0 else 1) + unseen bs

unseen-set :
    (bs : List Bool) (i : ℕ)
    → i < length bs
    → get_or bs i false ≡ false
    → suc (unseen (set bs i true)) ≡ unseen bs
unfolding unseen
unseen-set [] i h k = absurd (omega arith)
unseen-set (b ∷ bs) zero h k = rw k (omega arith)
unseen-set (b ∷ bs) (suc i) h k = omega (arith, unseen-set bs i (omega arith) k)

unseen-replicate : (n : ℕ) → unseen (replicate n false) ≡ n
unfolding unseen
unseen-replicate zero = refl
unseen-replicate (suc n) = omega (arith, unseen-replicate n)

length-range : (count i : ℕ) → length (range count i) ≡ count
unfolding range
length-range zero i = refl
length-range (suc count) i = ap suc (length-range count (suc i))

length-push_all :
    (targets : List ℕ) (slot : ℕ) (todo : List (ℕ × ℕ))
    → length (push_all targets slot todo) ≡ length targets + length todo
length-push_all [] slot todo = omega arith
length-push_all (t ∷ targets) slot todo =
    omega (arith, length-push_all targets slot ((t, slot) ∷ todo))

-- the most states that one state pushes
abbrev pub most : Program → ℕ
most p = 2 + length p.handlers + 2 ^ 31

length-successors : (p : Program) (pc instr : ℕ) → length (successors p pc instr) ≤ most p
unfolding successors
length-successors p pc instr =
    ground (arith, length-range (2 ^ (instr % 32)) 0, pow-le (instr % 32) 31)

pub get_elem?-lt :
    {A : Type 0} (xs : List A) (i : ℕ) {a : A} → get_elem? xs i ≡ some a → i < length xs
get_elem?-lt [] i h = cc
get_elem?-lt (x ∷ xs) zero h = omega arith
get_elem?-lt (x ∷ xs) (suc i) h = omega (arith, get_elem?-lt xs i h)

-- the slots of a frame
abbrev pub Slots : List (ℕ × ℕ) → Type 0
Slots [] = Unit
Slots (s ∷ todo) = (s.1 < 6) × Slots todo

pub push_all-Slots :
    (targets : List ℕ) (slot : ℕ) (todo : List (ℕ × ℕ))
    → slot < 6
    → Slots todo
    → Slots (push_all targets slot todo)
push_all-Slots [] slot todo h s = s
push_all-Slots (t ∷ targets) slot todo h s = push_all-Slots targets slot ((t, slot) ∷ todo) h (h, s)

measure :
    (m u u' pushed left fuel : ℕ)
    → suc u' ≡ u
    → pushed ≤ m
    → suc left + m * u < suc fuel
    → pushed + left + m * u' < fuel
measure m u u' pushed left fuel e h k =
    let more : m * u ≡ m + m * u' = subst (λ n. m * n ≡ m + m * u') e (grind arith) in
    omega (arith, more)

-- The three cases of a round of the loop.
module _ (fuel : ℕ) (p : Program) (pc slot : ℕ) (todo : List (ℕ × ℕ)) (r : Explored) where
  pub explore-old :
      is_seen r pc slot ≡ true → explore (suc fuel) p ((pc, slot) ∷ todo) r ≡ explore fuel p todo r
  unfolding explore
  explore-old old = rw (explore, old) refl

  pub explore-out :
      is_seen r pc slot ≡ false
      → get_elem? p.mem pc ≡ none
      → explore (suc fuel) p ((pc, slot) ∷ todo) r ≡ raise Stop.index_error
  unfolding explore
  explore-out new out = rw (explore, new, out) refl

  pub explore-new :
      (instr : ℕ)
      → is_seen r pc slot ≡ false
      → get_elem? p.mem pc ≡ some instr
      → explore (suc fuel) p ((pc, slot) ∷ todo) r
        ≡ explore fuel p
            (push_all (successors p pc instr) (next_slot slot instr) todo)
            (visit p pc slot instr r)
  unfolding explore
  explore-new instr new at = rw (explore, new, at) refl

explore-ends :
    (fuel : ℕ) (p : Program) (todo : List (ℕ × ℕ)) (r : Explored)
    → Slots todo
    → length r.seen ≡ length p.mem * 6
    → length todo + most p * unseen r.seen < fuel
    → explore fuel p todo r ≢ raise Stop.no_fuel
unfolding explore visit
explore-ends zero p todo r s sized h = absurd (omega arith)
explore-ends (suc fuel) p [] r s sized h = λ e. cc
explore-ends (suc fuel) p ((pc, slot) ∷ todo) r s sized h = elim (Bool-cases (is_seen r pc slot)) [
  | inl old ↦
      rw (explore-old fuel p pc slot todo r old)
        (explore-ends fuel p todo r s.1 sized (omega arith))
  | inr new ↦ elim (Option-cases (get_elem? p.mem pc)) [
    | inl out ↦ rw (explore-out fuel p pc slot todo r new out) (λ e. cc)
    | inr (instr, at) ↦
        let inside : pc * 6 + slot < length r.seen =
          omega (arith, get_elem?-lt p.mem pc at, sized, s.0) in
        let next = push_all (successors p pc instr) (next_slot slot instr) todo in
        rw (explore-new fuel p pc slot todo r instr new at) (
          explore-ends fuel p next (visit p pc slot instr r)
            (push_all-Slots (successors p pc instr) (next_slot slot instr) todo (omega arith) s.1)
            (length-set r.seen (pc * 6 + slot) true ∙ sized)
            (subst (λ n. n + most p * unseen (set r.seen (pc * 6 + slot) true) < fuel)
              (sym (length-push_all (successors p pc instr) (next_slot slot instr) todo))
              (measure (most p) (unseen r.seen) _ (length (successors p pc instr)) (length todo)
                fuel (unseen-set r.seen (pc * 6 + slot) inside new) (length-successors p pc instr)
                h)))
  ]
]

ends_early :
    {A B : Type 0} (m : Result Stop A) (f : A → B) {e : Stop}
    → (m >>= λ a. ok (f a)) ≡ raise e
    → m ≡ raise e
ends_early (ok a) f h = cc
ends_early (raise e) f h = cc

enough-more : (p : Program) (n : ℕ) → n ≡ length p.mem * 6 → 1 + most p * n < enough p
enough-more p n e = subst (λ k. 1 + most p * k < enough p) (sym e) (omega arith)

-- The search ends on every program, whatever its instructions: it stops with a report or with an index
-- that is out of range, never for want of fuel.
pub check_program-ends : (p : Program) → check_program p ≢ raise Stop.no_fuel
unfolding check_program
check_program-ends p e =
    explore-ends (enough p) p ((addr_fetch, drive_slot) ∷ []) (nothing_seen p) (omega arith, tt)
      (length-replicate (length p.mem * 6) false)
      (enough-more p (unseen (replicate (length p.mem * 6) false))
        (unseen-replicate (length p.mem * 6)))
      (ends_early (explore (enough p) p ((addr_fetch, drive_slot) ∷ []) (nothing_seen p))
        (λ r. record r { errors = r.errors ++ block_errors p r.blocking }) e)
