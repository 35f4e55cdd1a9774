-- ===== src/PioAsm/Disassemble.antt =====
-- `disassemble` of host/pio/asm.py.
use Prim.Native.String.{String, ◌++◌}
use ttihp_protocol_emulator.Prelude.{
  ℕ, zero, suc, ◌+◌, ◌-◌, ◌/◌, ◌%◌, ◌^◌, Bool, not, ◌&&◌, ◌||◌, Option, none, some, List, [], ◌∷◌,
  ltb, nonzero, get_or, ◌==◌, if◌then◌else◌, to_ℕ,
}
use ttihp_protocol_emulator.Prelude.Bits.{bit}

-- `"%d" % n`, by a digit a round
digits : List String
digits = "0" ∷ "1" ∷ "2" ∷ "3" ∷ "4" ∷ "5" ∷ "6" ∷ "7" ∷ "8" ∷ "9" ∷ []

decimal_fuel : ℕ → ℕ → String
unfolding digits
decimal_fuel zero n = ""
decimal_fuel (suc k) n =
    let more = decimal_fuel k (n / 10) in
    if ltb n 10 then get_or digits n "" else more ++ get_or digits (n % 10) ""

decimal : ℕ → String
unfolding decimal_fuel
decimal n = decimal_fuel (suc n) n

jmp_cond : List String
jmp_cond = "" ∷ "!x" ∷ "x--" ∷ "!y" ∷ "y--" ∷ "x!=y" ∷ "pin" ∷ "!osre" ∷ []

src_in : List String
src_in = "pins" ∷ "x" ∷ "y" ∷ "null" ∷ "reserved" ∷ "reserved" ∷ "isr" ∷ "osr" ∷ []

dst_out : List String
dst_out = "pins" ∷ "x" ∷ "y" ∷ "null" ∷ "pindirs" ∷ "pc" ∷ "isr" ∷ "exec" ∷ []

dst_mov : List String
dst_mov = "pins" ∷ "x" ∷ "y" ∷ "pindirs" ∷ "exec" ∷ "pc" ∷ "isr" ∷ "osr" ∷ []

src_mov : List String
src_mov = "pins" ∷ "x" ∷ "y" ∷ "null" ∷ "reserved" ∷ "status" ∷ "isr" ∷ "osr" ∷ []

dst_set : List String
dst_set = "pins" ∷ "x" ∷ "y" ∷ "reserved" ∷ "pindirs" ∷ "reserved" ∷ "reserved" ∷ "reserved" ∷ []

wait_sources : List String
wait_sources = "gpio" ∷ "pin" ∷ "irq" ∷ "jmppin" ∷ []

mov_operations : List String
mov_operations = "" ∷ "~" ∷ "::" ∷ "?" ∷ []

-- the fields that follow the instruction; a configuration has at most five side-set bits
unfoldable pub shown_delay : ℕ → Bool → ℕ → ℕ
shown_delay sideset_count sideset_opt instr =
    instr / 2 ^ 8 % 32 % 2 ^ (5 - (sideset_count + to_ℕ sideset_opt))

unfoldable pub shown_side : ℕ → Bool → ℕ → Option ℕ
shown_side sideset_count sideset_opt instr =
    let field = instr / 2 ^ 8 % 32 in
    if nonzero sideset_count && (not sideset_opt || bit field 4)
    then some (field / 2 ^ (5 - (sideset_count + to_ℕ sideset_opt)) % 2 ^ sideset_count)
    else none

shown_jmp : ℕ → String
unfolding jmp_cond decimal
shown_jmp low =
    let cond = low / 2 ^ 5 % 8 in
    "jmp " ++ ((if nonzero cond then get_or jmp_cond cond "" ++ ", " else "") ++ decimal (low % 32))

-- `(low & 0x1F) or 32`
abbrev count_of : ℕ → ℕ
count_of low = if low % 32 == 0 then 32 else low % 32

shown_fifo : ℕ → String
shown_fifo low =
    let block = if bit low 5 then " block" else " noblock" in
    if bit low 7
    then "pull" ++ ((if bit low 6 then " ifempty" else "") ++ block)
    else "push" ++ ((if bit low 6 then " iffull" else "") ++ block)

shown_mov : ℕ → ℕ → String
unfolding mov_operations dst_mov src_mov
shown_mov instr low =
    if instr == 0xa042
    then "nop"
    else "mov "
      ++ (get_or dst_mov (low / 2 ^ 5 % 8) ""
          ++ (", " ++ (get_or mov_operations (low / 2 ^ 3 % 4) "" ++ get_or src_mov (low % 8) "")))

shown_irq : ℕ → String
unfolding decimal
shown_irq low =
    "irq "
    ++ ((if bit low 6 then "clear" else if bit low 5 then "wait" else "set")
        ++ (" " ++ decimal (low % 32)))

shown_instruction : ℕ → String
unfolding shown_jmp shown_fifo shown_mov shown_irq decimal src_in dst_out dst_set wait_sources
shown_instruction instr =
    let op = instr / 2 ^ 13 in
    let low = instr % 256 in
    let field = low / 2 ^ 5 % 8 in
    if op == 0
    then shown_jmp low
    else if op == 1
    then "wait "
      ++ (decimal (low / 2 ^ 7)
          ++ (" " ++ (get_or wait_sources (low / 2 ^ 5 % 4) "" ++ (" " ++ decimal (low % 32)))))
    else if op == 2
    then "in " ++ (get_or src_in field "" ++ (", " ++ decimal (count_of low)))
    else if op == 3
    then "out " ++ (get_or dst_out field "" ++ (", " ++ decimal (count_of low)))
    else if op == 4
    then shown_fifo low
    else if op == 5
    then shown_mov instr low
    else if op == 6
    then shown_irq low
    else "set " ++ (get_or dst_set field "" ++ (", " ++ decimal (low % 32)))

unfoldable pub disassemble : ℕ → ℕ → Bool → String
unfolding shown_instruction shown_side shown_delay decimal
disassemble instr sideset_count sideset_opt =
    let wait = shown_delay sideset_count sideset_opt instr in
    shown_instruction instr
    ++ (elim (shown_side sideset_count sideset_opt instr) [
      | none ↦ ""
      | some value ↦ " side " ++ decimal value
    ]
        ++ (if nonzero wait then " [" ++ (decimal wait ++ "]") else ""))
