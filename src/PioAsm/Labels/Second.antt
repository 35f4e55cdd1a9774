-- ===== src/PioAsm/Labels/Second.antt =====
-- The second pass of host/pio/asm.py.
use Prim.Native.String.{String}
use ttihp_protocol_emulator.Prelude.{
  ℕ, ◌+◌, ◌-◌, ◌*◌, ◌^◌, bit_or, Bool, true, false, not, Option, none, some, List, [], ◌∷◌, ◌++◌,
  length, length-append, ◌≡◌, refl, sym, ap, ◌∙◌, subst, arith, if◌then◌else◌, to_ℕ,
}
use ttihp_protocol_emulator.Prelude.Results.{ok, raise, ◌>>=◌, >>=-eq-ok}
use ttihp_protocol_emulator.PioAsm.{
  AsmError, Options, Emit, new_emit, wrap_target, wrap, side_mode, start_first, start_second,
  or_last, or_word, delay, side, find_label, label, target, append_word, word,
}
use ttihp_protocol_emulator.PioAsm.Passes.{
  Call, wraps_to, wraps, labels, words, nop, jmp, jump, wait, in_, out, push, pull, mov, irq,
  irq_at, set, sides, delays, call, body, asm_pio, is_count, jmp_word, wait_word, in_word, out_word,
  push_word, pull_word, mov_word, irq_word, set_word,
}
use ttihp_protocol_emulator.PioAsm.Labels.{emits, emitted, position, body-First}

or_last-length : (bits : ℕ) (ws ws' : List ℕ) → or_last bits ws ≡ ok ws' → length ws' ≡ length ws
unfolding or_last
or_last-length bits [] ws' h = cc
or_last-length bits (w ∷ []) ws' h = ground arith
or_last-length bits (v ∷ w ∷ ws) ws' h =
    let (rest, found, end) = >>=-eq-ok (or_last bits (w ∷ ws)) _ h in
    let shorter = or_last-length bits (w ∷ ws) rest found in ground arith

-- a call of the second pass
record Second (c : Call) (e e' : Emit) : Type 0 where
  same_pass : e'.pass_no ≡ 1
  same_labels : e'.labels ≡ e.labels
  longer : length e'.instrs ≡ length e.instrs + emits c

or_word-Second :
    (bits : ℕ) (e e' : Emit)
    → or_word bits e ≡ ok e'
    → (e'.pass_no ≡ e.pass_no) × (e'.labels ≡ e.labels) × (length e'.instrs ≡ length e.instrs)
unfolding or_word
or_word-Second bits e e' h =
    let (ws, wrote, end) = >>=-eq-ok (or_last bits e.instrs) _ h in
    let kept = or_last-length bits e.instrs ws wrote in ground arith

word-later :
    (instr : ℕ) (name : Option String) (e : Emit)
    → e.pass_no ≡ 1
    → word instr name e ≡ (
        target name e.labels >>= λ address.
        append_word (bit_or instr address) (record e { num_instr = e.num_instr + 1 }))
unfolding word
word-later instr name e p = ground arith

word-Second :
    (instr : ℕ) (name : Option String) (e e' : Emit)
    → e.pass_no ≡ 1
    → word instr name e ≡ ok e'
    → (e'.pass_no ≡ 1)
      × (e'.labels ≡ e.labels)
      × ((a : ℕ) × (target name e.labels ≡ ok a) × (e'.instrs ≡ e.instrs ++ bit_or instr a ∷ []))
unfolding word append_word
word-Second instr name e e' p h =
    let (a, found, wrote) =
      >>=-eq-ok (target name e.labels) _ (sym (word-later instr name e p) ∙ h) in
    (ground arith, ground arith, (a, found, ground arith))

word-Second_length :
    (instr : ℕ) (name : Option String) (e e' : Emit)
    → e.pass_no ≡ 1
    → word instr name e ≡ ok e'
    → (e'.pass_no ≡ 1) × (e'.labels ≡ e.labels) × (length e'.instrs ≡ length e.instrs + 1)
word-Second_length instr name e e' p h =
    let (pass, table, (a, found, wrote)) = word-Second instr name e e' p h in
    (pass, table, ap length wrote ∙ length-append e.instrs (bit_or instr a ∷ []))

-- a call that is one `word`
word_call :
    (c : Call) (instr : ℕ) (name : Option String) (e e' : Emit)
    → emits c ≡ 1
    → e.pass_no ≡ 1
    → word instr name e ≡ ok e'
    → Second c e e'
word_call c instr name e e' one p h =
    let (pass, table, longer) = word-Second_length instr name e e' p h in
    record {
      same_pass = pass;
      same_labels = table;
      longer = longer ∙ ap (λ k. length e.instrs + k) (sym one);
    }

guarded_call :
    (c : Call) (test : Bool) (instr : ℕ) (e e' : Emit)
    → emits c ≡ 1
    → e.pass_no ≡ 1
    → (if not test then raise AsmError.bit_count else word instr none e) ≡ ok e'
    → Second c e e'
guarded_call c true instr e e' one p h = word_call c instr none e e' one p h
guarded_call c false instr e e' one p h = cc

call-Second : (c : Call) (e e' : Emit) → e.pass_no ≡ 1 → call c e ≡ ok e' → Second c e e'
unfolding call wrap_target wrap label side delay
call-Second wraps_to e e' p h = ground arith
call-Second wraps e e' p h = ground arith
call-Second (labels name) e e' p h = ground arith
call-Second (words instr name) e e' p h = word_call (words instr name) instr name e e' refl p h
call-Second nop e e' p h = word_call nop 0xa042 none e e' refl p h
call-Second (jmp cond name) e e' p h =
    word_call (jmp cond name) (jmp_word cond) (some name) e e' refl p h
call-Second (jump name) e e' p h = word_call (jump name) 0 (some name) e e' refl p h
call-Second (wait polarity src index) e e' p h =
    word_call (wait polarity src index) (wait_word polarity src index) none e e' refl p h
call-Second (in_ src count) e e' p h =
    guarded_call (in_ src count) (is_count count) (in_word src count) e e' refl p h
call-Second (out dest count) e e' p h =
    guarded_call (out dest count) (is_count count) (out_word dest count) e e' refl p h
call-Second (push value value2) e e' p h =
    word_call (push value value2) (push_word value value2) none e e' refl p h
call-Second (pull value value2) e e' p h =
    word_call (pull value value2) (pull_word value value2) none e e' refl p h
call-Second (mov dest src) e e' p h =
    word_call (mov dest src) (mov_word dest src) none e e' refl p h
call-Second (irq mode index) e e' p h =
    word_call (irq mode index) (irq_word mode index) none e e' refl p h
call-Second (irq_at index) e e' p h = word_call (irq_at index) (irq_word 0 index) none e e' refl p h
call-Second (set dest value) e e' p h =
    word_call (set dest value) (set_word dest value) none e e' refl p h
call-Second (sides value) e e' p h =
    let start : Emit = record e { num_sideset = e.num_sideset + 1 } in
    let bits = bit_or (to_ℕ e.sideset_opt * 2 ^ 12) (value * 2 ^ (13 - e.sideset_count)) in
    let wrote : or_word bits start ≡ ok e' = ground arith in
    let (pass, table, same) = or_word-Second bits start e' wrote in ground arith
call-Second (delays n) e e' p h =
    let wrote : or_word (n * 2 ^ 8) e ≡ ok e' = ground arith in
    let (pass, table, same) = or_word-Second (n * 2 ^ 8) e e' wrote in ground arith

body-Second :
    (cs : List Call) (e e' : Emit)
    → e.pass_no ≡ 1
    → body cs e ≡ ok e'
    → (e'.labels ≡ e.labels) × (length e'.instrs ≡ length e.instrs + emitted cs)
unfolding body
body-Second [] e e' p run =
    let end : e ≡ e' = cc in
    subst (λ (e' : Emit). (e'.labels ≡ e.labels) × (length e'.instrs ≡ length e.instrs + 0)) end
      (refl, omega arith)
body-Second (c ∷ cs) e e' p run =
    let (mid, first, rest) = >>=-eq-ok (call c e) (body cs) run in
    let one = call-Second c e mid p first in
    let more = body-Second cs mid e' one.same_pass rest in
    (more.0 ∙ one.same_labels, omega (arith, more.1, one.longer))

start_second-kept :
    (e e' : Emit)
    → start_second e ≡ ok e'
    → (e'.labels ≡ e.labels) × (e'.instrs ≡ e.instrs) × (e'.pass_no ≡ 1)
unfolding start_second wrap side_mode
start_second-kept e e' h = (ground arith, ground arith, ground arith)

-- A program that assembles has as many words as its body has instructions, and its label table gives
-- each name the number of instructions before the first label of that name, and no address to a name
-- without one.
pub asm_pio-labels :
    (o : Options) (cs : List Call) (e : Emit) (name : String)
    → asm_pio o cs ≡ ok e
    → (find_label name e.labels ≡ position name 0 cs) × (length e.instrs ≡ emitted cs)
unfolding asm_pio start_first new_emit
asm_pio-labels o cs e name run =
    let (first, one, later) = >>=-eq-ok (body cs (start_first (new_emit o))) _ run in
    let (second, two, three) = >>=-eq-ok (start_second first) _ later in
    let a = body-First name cs (start_first (new_emit o)) first refl one in
    let b = start_second-kept first second two in
    let c = body-Second cs second e b.2 three in
    (
      ap (λ t. find_label name t) (c.0 ∙ b.0) ∙ a.2 ∙ unfold find_label in refl,
      omega (arith, c.1, ap length (b.1 ∙ a.3)),
    )
