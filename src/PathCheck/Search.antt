-- ===== src/PathCheck/Search.antt =====
-- What the search of `check_program` in host/pio/pathcheck.py knows: the successors of a state that was seen
-- are seen or ahead.
use ttihp_protocol_emulator.Prelude.{
  ℕ, zero, suc, ◌+◌, ◌*◌, ◌<◌, ◌≡◌, ◌⊎◌, refl, sym, ap, ◌∙◌, subst, Bool, true, false, ◌&&◌, some,
  List, [], ◌∷◌, length, get_elem?, ltb, ◌==◌, if◌then◌else◌, length-set, length-replicate,
  get_or-set, get_or-replicate, ==_iff, arith, Bool-cases, Option-cases, inl, inr,
}
use ttihp_protocol_emulator.Prelude.Results.{Result, ok, raise}
use ttihp_protocol_emulator.PathCheck.{
  Stop, Program, Explored, is_blocking, state_errors, successors, push_all, next_slot, is_seen,
  visit, explore, nothing_seen, addr_fetch, drive_slot,
}
use ttihp_protocol_emulator.PathCheck.Ends.{
  Slots, push_all-Slots, get_elem?-lt, explore-old, explore-out, explore-new,
}
use ttihp_protocol_emulator.PathCheck.Rules.{In, append-empty}

pushed :
    (targets : List ℕ) (slot : ℕ) (todo : List (ℕ × ℕ)) (s : ℕ × ℕ)
    → In s todo
    → In s (push_all targets slot todo)
pushed [] slot todo s h = h
pushed (t ∷ targets) slot todo s h = pushed targets slot ((t, slot) ∷ todo) s (inr h)

pushed_target :
    (targets : List ℕ) (slot : ℕ) (todo : List (ℕ × ℕ)) (t : ℕ)
    → In t targets
    → In (t, slot) (push_all targets slot todo)
pushed_target [] slot todo t h = absurd h
pushed_target (u ∷ targets) slot todo t (inl e) =
    pushed targets slot ((u, slot) ∷ todo) (t, slot) (inl (ap (λ n. (n, slot)) e))
pushed_target (u ∷ targets) slot todo t (inr h) = pushed_target targets slot ((u, slot) ∷ todo) t h

unequal : (b c : Bool) (x : Bool) → b ≡ false → x ≡ (if b && c then true else x)
unequal true c x h = cc
unequal false c x h = refl

noted : (b : Bool) (pc : ℕ) (pcs : List ℕ) → b ≡ true → In pc (if b then pc ∷ pcs else pcs)
noted true pc pcs h = inl refl
noted false pc pcs h = cc

noted_still : (b : Bool) (pc n : ℕ) (pcs : List ℕ) → In n pcs → In n (if b then pc ∷ pcs else pcs)
noted_still true pc n pcs h = inr h
noted_still false pc n pcs h = h

-- `s` is seen or will be
abbrev pub Known : Explored → List (ℕ × ℕ) → ℕ → ℕ → Type 0
Known r todo pc slot = In (pc, slot) todo ⊎ (is_seen r pc slot ≡ true)

-- what is known of a state that is seen
pub record Closed (p : Program) (todo : List (ℕ × ℕ)) (r : Explored) (pc slot : ℕ) : Type 0 where
  pub instr : ℕ
  pub at : get_elem? p.mem pc ≡ some instr
  pub errors : r.errors ≡ [] → state_errors p pc slot instr ≡ []
  pub blocking : is_blocking instr ≡ true → In pc r.blocking
  pub next : (t : ℕ) → In t (successors p pc instr) → Known r todo t (next_slot slot instr)

pub record Searching (p : Program) (todo : List (ℕ × ℕ)) (r : Explored) : Type 0 where
  pub sized : length r.seen ≡ length p.mem * 6
  pub slots : Slots todo
  pub start : Known r todo addr_fetch drive_slot
  pub closed : (pc slot : ℕ) → slot < 6 → is_seen r pc slot ≡ true → Closed p todo r pc slot

module _ (p : Program) (pc slot : ℕ) (todo : List (ℕ × ℕ)) (r : Explored) where
  dropped :
      is_seen r pc slot ≡ true → (a b : ℕ) → Known r ((pc, slot) ∷ todo) a b → Known r todo a b
  dropped old a b (inl (inl e)) = inr (ap (λ s. is_seen r s.0 s.1) e ∙ old)
  dropped old a b (inl (inr h)) = inl h
  dropped old a b (inr h) = inr h

  old-Searching : is_seen r pc slot ≡ true → Searching p ((pc, slot) ∷ todo) r → Searching p todo r
  old-Searching old s = record {
    sized = s.sized;
    slots = s.slots.1;
    start = dropped old addr_fetch drive_slot s.start;
    closed = λ a b h seen.
        let c = s.closed a b h seen in
        record {
          instr = c.instr;
          at = c.at;
          errors = c.errors;
          blocking = c.blocking;
          next = λ t i. dropped old t (next_slot b c.instr) (c.next t i);
        };
  }

  module _ (instr : ℕ) (new : is_seen r pc slot ≡ false) (at : get_elem? p.mem pc ≡ some instr)
      (s : Searching p ((pc, slot) ∷ todo) r) where
    abbrev after : Explored
    after = visit p pc slot instr r

    abbrev ahead : List (ℕ × ℕ)
    ahead = push_all (successors p pc instr) (next_slot slot instr) todo

    inside : ltb (pc * 6 + slot) (length r.seen) ≡ true
    inside = ground (arith, get_elem?-lt p.mem pc at, s.sized, s.slots.0)

    seen_after :
        (a b : ℕ)
        → is_seen after a b ≡ (
            if (pc * 6 + slot) == (a * 6 + b) && ltb (pc * 6 + slot) (length r.seen)
            then true
            else is_seen r a b)
    unfolding visit
    seen_after a b = get_or-set r.seen (pc * 6 + slot) (a * 6 + b) true false

    seen_now : is_seen after pc slot ≡ true
    seen_now = seen_after pc slot ∙ ground (arith, inside)

    seen_still : (a b : ℕ) → is_seen r a b ≡ true → is_seen after a b ≡ true
    seen_still a b h = seen_after a b ∙ ground (arith, h)

    seen_before :
        (a b : ℕ)
        → ((pc * 6 + slot) == (a * 6 + b)) ≡ false
        → is_seen after a b ≡ true
        → is_seen r a b ≡ true
    seen_before a b h k =
        unequal ((pc * 6 + slot) == (a * 6 + b)) _ (is_seen r a b) h ∙ sym (seen_after a b) ∙ k

    known : (a b : ℕ) → Known r ((pc, slot) ∷ todo) a b → Known after ahead a b
    known a b (inl (inl e)) = inr (ap (λ s. is_seen after s.0 s.1) e ∙ seen_now)
    known a b (inl (inr h)) =
        inl (pushed (successors p pc instr) (next_slot slot instr) todo (a, b) h)
    known a b (inr h) = inr (seen_still a b h)

    here : Closed p ahead after pc slot
    unfolding visit
    here = record {
      instr = instr;
      at = at;
      errors = λ e. (append-empty r.errors _ e).1;
      blocking = λ b. noted (is_blocking instr) pc r.blocking b;
      next = λ t i. inl (pushed_target (successors p pc instr) (next_slot slot instr) todo t i);
    }

    carried : (a b : ℕ) → Closed p ((pc, slot) ∷ todo) r a b → Closed p ahead after a b
    unfolding visit
    carried a b c = record {
      instr = c.instr;
      at = c.at;
      errors = λ e. c.errors (append-empty r.errors _ e).0;
      blocking = λ h. noted_still (is_blocking instr) pc a r.blocking (c.blocking h);
      next = λ t i. known t (next_slot b c.instr) (c.next t i);
    }

    same_pc : (a b : ℕ) → b < 6 → ((pc * 6 + slot) == (a * 6 + b)) ≡ true → pc ≡ a
    same_pc a b h e =
        let equal = (==_iff (pc * 6 + slot) (a * 6 + b)).0 e in omega (arith, s.slots.0, equal)

    same_slot : (a b : ℕ) → b < 6 → ((pc * 6 + slot) == (a * 6 + b)) ≡ true → slot ≡ b
    same_slot a b h e =
        let equal = (==_iff (pc * 6 + slot) (a * 6 + b)).0 e in omega (arith, s.slots.0, equal)

    new-Searching : Searching p ahead after
    unfolding visit
    new-Searching = record {
      sized = length-set r.seen (pc * 6 + slot) true ∙ s.sized;
      slots =
          push_all-Slots (successors p pc instr) (next_slot slot instr) todo (omega arith)
            s.slots.1;
      start = known addr_fetch drive_slot s.start;
      closed = λ a b h seen. elim (Bool-cases ((pc * 6 + slot) == (a * 6 + b))) [
        | inl same ↦
            subst (λ n. Closed p ahead after n b) {x = pc} {y = a} (same_pc a b h same)
              (subst (λ n. Closed p ahead after pc n) {x = slot} {y = b} (same_slot a b h same)
                here)
        | inr apart ↦ carried a b (s.closed a b h (seen_before a b apart seen))
      ];
    }

abbrev pub found : Explored → Result Stop Explored
found r = ok r

pub ok-same : {a b : Explored} → found a ≡ found b → a ≡ b
ok-same h = cc

stopped : {a : Explored} → raise Stop.index_error ≡ found a → ⊥
stopped h = cc

pub explore-Searching :
    (fuel : ℕ) (p : Program) (todo : List (ℕ × ℕ)) (r r' : Explored)
    → explore fuel p todo r ≡ ok r'
    → Searching p todo r
    → Searching p [] r'
unfolding explore
explore-Searching zero p todo r r' h s = cc
explore-Searching (suc fuel) p [] r r' h s = subst (Searching p []) (ok-same h) s
explore-Searching (suc fuel) p ((pc, slot) ∷ todo) r r' h s =
    elim (Bool-cases (is_seen r pc slot)) [
      | inl old ↦
          explore-Searching fuel p todo r r' (sym (explore-old fuel p pc slot todo r old) ∙ h)
            (old-Searching p pc slot todo r old s)
      | inr new ↦ elim (Option-cases (get_elem? p.mem pc)) [
        | inl out ↦ absurd (stopped (sym (explore-out fuel p pc slot todo r new out) ∙ h))
        | inr (instr, at) ↦
            explore-Searching fuel p (push_all (successors p pc instr) (next_slot slot instr) todo)
              (visit p pc slot instr r) r'
              (sym (explore-new fuel p pc slot todo r instr new at) ∙ h)
              (new-Searching p pc slot todo r instr new at s)
      ]
    ]

never : false ≡ true → ⊥
never h = cc

pub first-Searching : (p : Program) → Searching p ((addr_fetch, drive_slot) ∷ []) (nothing_seen p)
first-Searching p = record {
  sized = length-replicate (length p.mem * 6) false;
  slots = (omega arith, tt);
  start = inl (inl refl);
  closed = λ a b h seen.
      absurd (never (sym (get_or-replicate (length p.mem * 6) (a * 6 + b) false) ∙ seen));
}
