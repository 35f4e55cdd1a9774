-- ===== src/Machine/Isolation.antt =====
-- Pin isolation: the host's ownership commands keep the engines' pins apart, so each pad has at most
-- one driver.
use ttihp_protocol_emulator.Prelude.{
  ℕ, zero, suc, ◌+◌, ◌/◌, ◌%◌, ◌^◌, ◌<◌, bit_and, bit_or, Bool, true, false, not, ◌&&◌, ◌||◌, ◌≡◌,
  ◌≢◌, ◌⊎◌, inl, inr, refl, sym, ◌∙◌, ap, Option, none, some, List, [], ◌∷◌, arith, length, get_or,
  set, map_from, nonzero, ◌==◌, ltb, if◌then◌else◌, Bool-cases, Option-cases, get_or-set,
  get_or-replicate,
}
pub mod Edges
pub mod Drivers
use native.Mathlib.Decide.{ℕ_discrete}
use ttihp_protocol_emulator.Prelude.{==_eq, ==_ne}
use ttihp_protocol_emulator.Prelude.Bits.{
  bit, and_not, bit-zero, bit-bit_or, bit-bit_and, bit-and_not, disjoint_of-bit_and,
}
use ttihp_protocol_emulator.Config.{Config}
use ttihp_protocol_emulator.Engine.{Engine, fresh, start}
use ttihp_protocol_emulator.Machine.{Machine, reset, engine_at}
use ttihp_protocol_emulator.Machine.Command.{
  HostOp, others_own, rejects, effect, host_op, command, program_word,
}

-- The pins that the other engines own.
others_own_acc :
    (selected k acc p : ℕ) (es : List Engine)
    → bit acc p ≡ true
    → bit (others_own selected k acc es) p ≡ true
unfolding others_own
others_own_acc selected k acc p [] h = h
others_own_acc selected k acc p (e ∷ es) h =
    others_own_acc selected (suc k) _ p es (ground (arith, bit-bit_or acc e.ownership p))

others_own_peer :
    (selected k acc p j : ℕ) (es : List Engine)
    → (k + j == selected) ≡ false
    → bit (get_or es j fresh).ownership p ≡ true
    → bit (others_own selected k acc es) p ≡ true
unfolding others_own
others_own_peer selected k acc p j [] q h = ground (arith, bit-zero p)
others_own_peer selected k acc p zero (e ∷ es) q h =
    others_own_acc selected (suc k) _ p es (ground (arith, bit-bit_or acc e.ownership p))
others_own_peer selected k acc p (suc j) (e ∷ es) q h =
    others_own_peer selected (suc k) _ p j es (ground arith) h

-- No pin has two owners.
abbrev pub AreApart : ℕ → List Engine → Type 0
AreApart p es =
    (i j : ℕ)
    → bit (get_or es i fresh).ownership p ≡ true
    → bit (get_or es j fresh).ownership p ≡ true
    → i ≡ j

-- lists of engines with the same owners
abbrev pub SameOwners : List Engine → List Engine → Type 0
SameOwners es es' = (i : ℕ) → (get_or es' i fresh).ownership ≡ (get_or es i fresh).ownership

pub AreApart-same :
    (p : ℕ) (es es' : List Engine) → SameOwners es es' → AreApart p es → AreApart p es'
AreApart-same p es es' same h i j a b =
    h i j (ap (λ o. bit o p) (sym (same i)) ∙ a) (ap (λ o. bit o p) (sym (same j)) ∙ b)

SameOwners-set :
    (es : List Engine) (k : ℕ) (e : Engine)
    → e.ownership ≡ (get_or es k fresh).ownership
    → SameOwners es (set es k e)
SameOwners-set es k e q i = elim (ℕ_discrete k i) [
  | no ne ↦ rw get_or-set (rw (==_ne ne) refl)
  | yes eq ↦ elim (Bool-cases (ltb k (length es))) [
    | inl r ↦ rw get_or-set (rw (r, ==_eq eq) (rw (← eq) q))
    | inr r ↦ rw get_or-set (rw (r, ==_eq eq) refl)
  ]
]

SameOwners-map_from :
    (k : ℕ) (f : ℕ → Engine → Engine)
    → ((j : ℕ) (e : Engine) → (f j e).ownership ≡ e.ownership)
    → (es : List Engine) → SameOwners es (map_from k f es)
SameOwners-map_from k f q [] i = refl
SameOwners-map_from k f q (e ∷ es) zero = q k e
SameOwners-map_from k f q (e ∷ es) (suc i) = SameOwners-map_from (suc k) f q es i

-- OWN is refused for a pin of another engine.
module _ (p : ℕ) (es : List Engine) (selected owned : ℕ) (e : Engine)
    (free : bit_and owned (others_own selected 0 0 es) ≡ 0) (asked : e.ownership ≡ owned)
    (apart : AreApart p es) where
  not_taken :
      (j : ℕ) → j ≢ selected → bit owned p ≡ true → ¬ (bit (get_or es j fresh).ownership p ≡ true)
  not_taken j ne mine yours =
      let theirs = others_own_peer selected 0 0 p j es (ground arith) yours in
      cc (disjoint_of-bit_and owned (others_own selected 0 0 es) p free mine, theirs)

  own-AreApart : AreApart p (set es selected e)
  own-AreApart i j a b = ground (
    arith,
    apart i j,
    not_taken i,
    not_taken j,
    ap (λ (x : Engine). bit x.ownership p) (get_or-set es selected i e fresh),
    ap (λ (x : Engine). bit x.ownership p) (get_or-set es selected j e fresh),
    ap (λ o. bit o p) asked,
  )

module _ (cfg : Config) (m : Machine) (payload p : ℕ) where
  effect-AreApart :
      (o : HostOp)
      → rejects cfg o m payload ≡ false
      → AreApart p m.engines
      → AreApart p (effect o m payload).engines
  unfolding effect rejects start
  effect-AreApart HostOp.select h a = a
  effect-AreApart HostOp.begin h a =
      AreApart-same p m.engines _ (SameOwners-set m.engines m.selected _ refl) a
  effect-AreApart HostOp.commit h a =
      AreApart-same p m.engines _ (SameOwners-set m.engines m.selected _ refl) a
  effect-AreApart HostOp.own h a =
      own-AreApart p m.engines m.selected (payload % 256) _ (ground (arith, h)) refl a
  effect-AreApart HostOp.start_op h a =
      AreApart-same p m.engines _ (SameOwners-map_from 0 _ (λ j e. ground arith) m.engines) a
  effect-AreApart HostOp.stop_op h a =
      AreApart-same p m.engines _ (SameOwners-map_from 0 _ (λ j e. ground arith) m.engines) a
  effect-AreApart HostOp.route h a = a
  effect-AreApart HostOp.clear h a =
      AreApart-same p m.engines _ (SameOwners-map_from 0 _ (λ j e. ground arith) m.engines) a
  effect-AreApart HostOp.read_sel h a = a
  effect-AreApart HostOp.event_op h a =
      AreApart-same p m.engines _ (SameOwners-map_from 0 _ (λ j e. ground arith) m.engines) a
  effect-AreApart HostOp.flush h a =
      AreApart-same p m.engines _ (SameOwners-set m.engines m.selected _ refl) a
  effect-AreApart HostOp.trigger_op h a =
      AreApart-same p m.engines _ (SameOwners-set m.engines m.selected _ refl) a

module _ (cfg : Config) (m : Machine) (word p : ℕ) (a : AreApart p m.engines) where
  pub command-AreApart : AreApart p (command cfg m word).0.engines
  unfolding command
  command-AreApart = elim (Option-cases (host_op (word / 2 ^ 24))) [
    | inl q ↦ rw (q, command) a
    | inr (o, q) ↦ elim (Bool-cases (rejects cfg o m (word % 2 ^ 24))) [
      | inl bad ↦ rw (q, command) (rw bad a)
      | inr good ↦ rw (q, command) (rw good (effect-AreApart cfg m (word % 2 ^ 24) p o good a))
    ]
  ]

  pub program_word-AreApart : AreApart p (program_word cfg m word).0.engines
  unfolding program_word
  program_word-AreApart =
      let e = engine_at m m.selected in
      elim (Bool-cases (e.running || (not e.writing || length e.program == cfg.program_words))) [
        | inl bad ↦ rw bad a
        | inr good ↦
            rw good (AreApart-same p m.engines _ (SameOwners-set m.engines m.selected _ refl) a)
      ]
