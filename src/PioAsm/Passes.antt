-- ===== src/PioAsm/Passes.antt =====
-- The calls of a program's body in host/pio/asm.py with their encodings, and the two passes of `asm_pio`.
use Prim.Native.String.{String}
use ttihp_protocol_emulator.Prelude.{
  ℕ, ◌*◌, ◌%◌, ◌^◌, bit_or, bit_and, Bool, not, ◌&&◌, Option, none, some, List, [], ◌∷◌, ltb, leb,
  nonzero, ◌==◌, if◌then◌else◌,
}
use ttihp_protocol_emulator.Prelude.Bits.{bit}
use ttihp_protocol_emulator.Prelude.Results.{Result, ok, raise, ◌>>=◌}
use ttihp_protocol_emulator.PioAsm.{
  AsmError, Options, Emit, Step, new_emit, wrap_target, wrap, start_first, start_second, delay,
  side, label, word,
}

-- One call in the body of a program; `side` and `delay` are the calls chained to an instruction. `jump`
-- and `irq_at` are `jmp` and `irq` with one argument.
pub data Call : Type 0 where
  wraps_to wraps : Call
  labels : String → Call
  words : ℕ → Option String → Call
  nop : Call
  jmp : ℕ → String → Call
  jump : String → Call
  wait : ℕ → ℕ → ℕ → Call
  in_ : ℕ → ℕ → Call
  out : ℕ → ℕ → Call
  push : ℕ → ℕ → Call
  pull : ℕ → ℕ → Call
  mov : ℕ → ℕ → Call
  irq : ℕ → ℕ → Call
  irq_at : ℕ → Call
  set : ℕ → ℕ → Call
  sides : ℕ → Call
  delays : ℕ → Call

-- `0 < data <= 32`
abbrev pub is_count : ℕ → Bool
is_count n = ltb 0 n && leb n 32

abbrev pub jmp_word : ℕ → ℕ
jmp_word cond = cond * 2 ^ 5

abbrev pub wait_source : ℕ → ℕ
wait_source src = if src == 6 then 1 else if nonzero src then 2 else src

abbrev pub wait_word : ℕ → ℕ → ℕ → ℕ
wait_word polarity src index =
    bit_or (bit_or (bit_or 0x2000 (polarity * 2 ^ 7)) (wait_source src * 2 ^ 5)) index

abbrev pub in_word : ℕ → ℕ → ℕ
in_word src count = bit_or (bit_or 0x4000 (src * 2 ^ 5)) (count % 32)

abbrev pub out_word : ℕ → ℕ → ℕ
out_word dest count = bit_or (bit_or 0x6000 ((if dest == 8 then 7 else dest) * 2 ^ 5)) (count % 32)

-- the flags of PUSH and PULL: block by default
abbrev pub fifo_flags : ℕ → ℕ → ℕ
fifo_flags value value2 =
    let flags = bit_or value value2 in
    bit_and (if not (bit flags 0) then bit_or flags 0x20 else flags) 0x60

abbrev pub push_word : ℕ → ℕ → ℕ
push_word value value2 = bit_or 0x8000 (fifo_flags value value2)

abbrev pub pull_word : ℕ → ℕ → ℕ
pull_word value value2 = bit_or 0x8080 (fifo_flags value value2)

abbrev pub mov_word : ℕ → ℕ → ℕ
mov_word dest src = bit_or (bit_or 0xa000 ((if dest == 8 then 4 else dest) * 2 ^ 5)) src

abbrev pub irq_word : ℕ → ℕ → ℕ
irq_word mode index = bit_or (bit_or 0xc000 (bit_and mode 0x60)) index

abbrev pub set_word : ℕ → ℕ → ℕ
set_word dest value = bit_or (bit_or 0xe000 (dest * 2 ^ 5)) value

unfoldable pub call : Call → Step
unfolding wrap_target wrap label word side delay
call wraps_to e = wrap_target e
call wraps e = wrap e
call (labels name) e = label name e
call (words instr name) e = word instr name e
call nop e = word 0xa042 none e
call (jmp cond name) e = word (jmp_word cond) (some name) e
call (jump name) e = word 0 (some name) e
call (wait polarity src index) e = word (wait_word polarity src index) none e
call (in_ src count) e =
    if not (is_count count) then raise AsmError.bit_count else word (in_word src count) none e
call (out dest count) e =
    if not (is_count count) then raise AsmError.bit_count else word (out_word dest count) none e
call (push value value2) e = word (push_word value value2) none e
call (pull value value2) e = word (pull_word value value2) none e
call (mov dest src) e = word (mov_word dest src) none e
call (irq mode index) e = word (irq_word mode index) none e
call (irq_at index) e = word (irq_word 0 index) none e
call (set dest value) e = word (set_word dest value) none e
call (sides value) e = side value e
call (delays n) e = delay n e

-- `body()`
unfoldable pub body : List Call → Step
body [] e = ok e
body (c ∷ cs) e = call c e >>= λ next. body cs next

-- `asm_pio(**kw)(func)`; the program list and the labels are those of the emitter
unfoldable pub asm_pio : Options → List Call → Result AsmError Emit
unfolding new_emit start_first start_second body call
asm_pio o calls = body calls (start_first (new_emit o)) >>= λ first.
    start_second first >>= λ second. body calls second
