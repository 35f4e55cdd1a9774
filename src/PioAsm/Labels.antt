-- ===== src/PioAsm/Labels.antt =====
-- The two passes of host/pio/asm.py: a label is the number of instructions before it, and a jump to it
-- carries that address.
pub mod Second
use Prim.Native.String.{String}
use text.Mathlib.Text.{◌==◌ as str_eq}
use ttihp_protocol_emulator.Prelude.{
  ℕ, zero, suc, ◌+◌, ◌-◌, ◌*◌, ◌/◌, ◌%◌, ◌^◌, ◌<◌, ◌≤◌, bit_or, Bool, true, false, not, ◌&&◌,
  Option, none, some, is_some, List, [], ◌∷◌, ◌++◌, length, length-append, ◌≡◌, refl, sym, ap, ◌∙◌,
  subst, arith, ltb, leb, ◌==◌, if◌then◌else◌, nonzero, to_ℕ, inl, inr, Option-cases,
}
use ttihp_protocol_emulator.Prelude.Results.{Result, ok, raise, ◌>>=◌, >>=-eq-ok}
use ttihp_protocol_emulator.PioAsm.{
  AsmError, Options, Emit, Step, new_emit, wrap_target, wrap, side_mode, start_first, start_second,
  or_last, or_word, delay, side, find_label, label, target, append_word, word,
}
use ttihp_protocol_emulator.PioAsm.Passes.{
  Call, wraps_to, wraps, labels, words, nop, jmp, jump, wait, in_, out, push, pull, mov, irq,
  irq_at, set, sides, delays, call, body, asm_pio,
}

-- the instructions that a call emits
abbrev pub emits : Call → ℕ
emits wraps_to = 0
emits wraps = 0
emits (labels _) = 0
emits (sides _) = 0
emits (delays _) = 0
emits _ = 1

abbrev pub emitted : List Call → ℕ
emitted [] = 0
emitted (c ∷ cs) = emits c + emitted cs

-- the number of instructions before the label, which `start` instructions precede already
unfoldable pub position : String → ℕ → List Call → Option ℕ
position name start [] = none
position name start (labels l ∷ cs) =
    let rest = position name start cs in if str_eq l name then some start else rest
position name start (c ∷ cs) = position name (start + emits c) cs

-- the label found first
abbrev pub or_else : Option ℕ → Option ℕ → Option ℕ
or_else none o = o
or_else (some a) o = some a

abbrev here : String → ℕ → Call → Option ℕ
here name start (labels l) = if str_eq l name then some start else none
here name start _ = none

find_label-append :
    (name l : String) (a : ℕ) (table : List (String × ℕ))
    → find_label name (table ++ (l, a) ∷ [])
      ≡ or_else (find_label name table) (if str_eq l name then some a else none)
unfolding find_label
find_label-append name l a [] = refl
find_label-append name l a ((key, address) ∷ table) =
    ground (arith, find_label-append name l a table)

-- a call of the first pass
record First (name : String) (c : Call) (e e' : Emit) : Type 0 where
  same_pass : e'.pass_no ≡ 0
  counted : e'.num_instr ≡ e.num_instr + emits c
  found : find_label name e'.labels ≡ or_else (find_label name e.labels) (here name e.num_instr c)
  silent : e'.instrs ≡ e.instrs

call-First :
    (name : String) (c : Call) (e e' : Emit) → e.pass_no ≡ 0 → call c e ≡ ok e' → First name c e e'
unfolding call wrap_target wrap label word side delay
call-First name (labels l) e e' p run =
    ground (arith, find_label-append name l e.num_instr e.labels)
call-First name c e e' p run = ground arith

position-cons :
    (name : String) (start : ℕ) (c : Call) (cs : List Call)
    → position name start (c ∷ cs)
      ≡ or_else (here name start c) (position name (start + emits c) cs)
unfolding position
position-cons name start (labels l) cs =
    let same : start ≡ start + 0 = omega arith in
    let later = ap (λ n. position name n cs) same in ground (arith, later)
position-cons name start c cs = refl

or_else_assoc : (a b c : Option ℕ) → or_else (or_else a b) c ≡ or_else a (or_else b c)
or_else_assoc none b c = refl
or_else_assoc (some x) b c = refl

pub body-First :
    (name : String) (cs : List Call) (e e' : Emit)
    → e.pass_no ≡ 0
    → body cs e ≡ ok e'
    → (e'.pass_no ≡ 0)
      × (e'.num_instr ≡ e.num_instr + emitted cs)
      × (find_label name e'.labels
          ≡ or_else (find_label name e.labels) (position name e.num_instr cs))
      × (e'.instrs ≡ e.instrs)
unfolding body position
body-First name [] e e' p run =
    let end : e ≡ e' = cc in
    let stopped : find_label name e.labels ≡ or_else (find_label name e.labels) none =
      elim (Option-cases (find_label name e.labels)) [
        | inl absent ↦ rw absent refl
        | inr (a, there) ↦ rw there refl
      ] in
    subst
      (λ (e' : Emit).
        (e'.pass_no ≡ 0)
        × (e'.num_instr ≡ e.num_instr + 0)
        × (find_label name e'.labels ≡ or_else (find_label name e.labels) none)
        × (e'.instrs ≡ e.instrs))
      end (p, omega arith, stopped, refl)
body-First name (c ∷ cs) e e' p run =
    let (mid, first, rest) = >>=-eq-ok (call c e) (body cs) run in
    let one = call-First name c e mid p first in
    let more = body-First name cs mid e' one.same_pass rest in
    (
      more.0,
      omega (arith, more.1, one.counted),
      more.2
          ∙ ap (λ o. or_else o (position name mid.num_instr cs)) one.found
          ∙ or_else_assoc (find_label name e.labels) (here name e.num_instr c) _
          ∙ ap
              (λ n.
                or_else (find_label name e.labels)
                  (or_else (here name e.num_instr c) (position name n cs)))
              one.counted
          ∙ ap (λ o. or_else (find_label name e.labels) o)
              (sym (position-cons name e.num_instr c cs)),
      more.3 ∙ one.silent,
    )
