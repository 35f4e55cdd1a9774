-- ===== src/PathCheck/Rules.antt =====
-- The rules of the frame in host/pio/pathcheck.py, and what an instruction without errors keeps.
use ttihp_protocol_emulator.Prelude.{
  ℕ, zero, suc, ◌+◌, ◌%◌, ◌<◌, ◌≤◌, ◌≡◌, ◌⊎◌, refl, sym, subst, Bool, true, false, not, ◌&&◌, List,
  [], ◌∷◌, ◌++◌, any, ◌==◌, if◌then◌else◌, arith, inl, inr,
}
use ttihp_protocol_emulator.Prelude.Bits.{bit, differs}
use ttihp_protocol_emulator.PathCheck.{
  PathError, drives_at, samples_at, target_differs, blocks, Program, template_side, delay_in,
  counts_down, fall_through, writes_pins, reads_pins, is_blocking, side_errors, target_errors,
  state_errors, block_errors, drive_slot, sample_slot,
}

abbrev pub In : {A : Type 0} → A → List A → Type 0
In a [] = ⊥
In a (x ∷ xs) = (a ≡ x) ⊎ In a xs

-- The rules of the frame for one instruction at a slot.
pub record Keeps (p : Program) (pc slot instr : ℕ) : Type 0 where
  pub clock : (k : ℕ) → k ≤ delay_in instr → bit instr 12 ≡ template_side ((slot + k) % 6)
  pub drive : writes_pins instr ≡ true → slot ≡ 3
  pub sample : reads_pins instr ≡ true → slot ≡ 2
  pub counting : counts_down instr ≡ true → instr % 32 ≡ fall_through p pc
  pub blocking : is_blocking instr ≡ true → any (λ n. n == pc) p.allowed_blocking ≡ true

module _ {A : Type 0} where
  pub append-empty : (xs ys : List A) → xs ++ ys ≡ [] → (xs ≡ []) × (ys ≡ [])
  append-empty [] ys h = (refl, h)
  append-empty (x ∷ xs) ys h = cc

skipped :
    {A : Type 0} (b : Bool) (e : A) (rest : List A)
    → (if b then e ∷ rest else rest) ≡ []
    → (b ≡ false) × (rest ≡ [])
skipped true e rest h = cc
skipped false e rest h = (refl, h)

differs-same : (a b : Bool) → differs a b ≡ false → b ≡ a
differs-same true b h = ground arith
differs-same false b h = h

side_errors-empty :
    (left k pc slot instr : ℕ)
    → side_errors left k pc slot instr ≡ []
    → (i : ℕ) → i < left
    → bit instr 12 ≡ template_side ((slot + (k + i)) % 6)
unfolding side_errors
side_errors-empty zero k pc slot instr h i l = absurd (omega arith)
side_errors-empty (suc left) k pc slot instr h zero l =
    let none_here = skipped (differs (template_side ((slot + k) % 6)) (bit instr 12)) _ _ h in
    subst (λ n. bit instr 12 ≡ template_side ((slot + n) % 6)) {x = k} {y = k + 0} (omega arith)
      (differs-same _ _ none_here.0)
side_errors-empty (suc left) k pc slot instr h (suc i) l =
    let none_here = skipped (differs (template_side ((slot + k) % 6)) (bit instr 12)) _ _ h in
    let next : bit instr 12 ≡ template_side ((slot + (suc k + i)) % 6) =
      side_errors-empty left (suc k) pc slot instr none_here.1 i (omega arith) in
    subst (λ n. bit instr 12 ≡ template_side ((slot + n) % 6)) {x = suc k + i} {y = k + suc i}
      (omega arith) next

module _ {A : Type 0} (a : A) where
  only-empty : (b : Bool) → (if b then a ∷ [] else []) ≡ [] → b ≡ false
  only-empty true h = cc
  only-empty false h = refl

implied : (b : Bool) (n m : ℕ) → b ≡ true → (b && not (n == m)) ≡ false → n ≡ m
implied b n m h k = ground arith

-- what an instruction without errors keeps
pub state_errors-Keeps :
    (p : Program) (pc slot instr : ℕ)
    → state_errors p pc slot instr ≡ []
    → (is_blocking instr ≡ true → any (λ n. n == pc) p.allowed_blocking ≡ true)
    → Keeps p pc slot instr
unfolding state_errors target_errors
state_errors-Keeps p pc slot instr h permitted =
    let (side, rest) = append-empty (side_errors (suc (delay_in instr)) 0 pc slot instr) _ h in
    let (drive, rest') =
      append-empty
        (if writes_pins instr && not (slot == drive_slot) then drives_at pc slot ∷ [] else []) _
        rest in
    let (sample, target) =
      append-empty
        (if reads_pins instr && not (slot == sample_slot) then samples_at pc slot ∷ [] else []) _
        rest' in
    let drive' =
      only-empty (drives_at pc slot) (writes_pins instr && not (slot == drive_slot)) drive in
    let sample' =
      only-empty (samples_at pc slot) (reads_pins instr && not (slot == sample_slot)) sample in
    let target' =
      only-empty (target_differs pc) (counts_down instr && not (instr % 32 == fall_through p pc))
        target in
    record {
      clock = λ k l.
          subst (λ n. bit instr 12 ≡ template_side ((slot + n) % 6)) {x = 0 + k} {y = k}
            (omega arith)
            (side_errors-empty (suc (delay_in instr)) 0 pc slot instr side k (omega arith));
      drive = λ w. implied (writes_pins instr) slot drive_slot w drive';
      sample = λ w. implied (reads_pins instr) slot sample_slot w sample';
      counting = λ w. implied (counts_down instr) (instr % 32) (fall_through p pc) w target';
      blocking = permitted;
    }

allowed :
    (b : Bool) (e : PathError) (rest : List PathError)
    → (if b then rest else e ∷ rest) ≡ []
    → (b ≡ true) × (rest ≡ [])
allowed true e rest h = (refl, h)
allowed false e rest h = cc

pub block_errors-empty :
    (p : Program) (pcs : List ℕ)
    → block_errors p pcs ≡ []
    → (pc : ℕ) → In pc pcs
    → any (λ n. n == pc) p.allowed_blocking ≡ true
unfolding block_errors
block_errors-empty p [] h pc i = absurd i
block_errors-empty p (q ∷ pcs) h pc (inl e) =
    subst (λ q. any (λ n. n == q) p.allowed_blocking ≡ true) (sym e)
      (allowed (any (λ n. n == q) p.allowed_blocking) (blocks q) _ h).0
block_errors-empty p (q ∷ pcs) h pc (inr i) =
    block_errors-empty p pcs (allowed (any (λ n. n == q) p.allowed_blocking) (blocks q) _ h).1 pc i
