-- ===== src/PioAsm.antt =====
-- The assembler of host/pio/asm.py: `PIOASMEmit`, whose methods are the calls of a program's body.
pub mod Passes
pub mod Disassemble
pub mod Fields
pub mod Labels
pub mod Program
use Prim.Native.String.{String}
use text.Mathlib.Text.{◌==◌ as str_eq}
use ttihp_protocol_emulator.Prelude.{
  ℕ, suc, ◌+◌, ◌-◌, ◌*◌, ◌/◌, ◌%◌, ◌^◌, bit_or, bit_and, Bool, true, false, not, ◌&&◌, Option, none,
  some, List, [], ◌∷◌, ◌++◌, length, is_some, ltb, leb, nonzero, ◌==◌, if◌then◌else◌, to_ℕ,
}
use ttihp_protocol_emulator.Prelude.Bits.{bit}
use ttihp_protocol_emulator.Prelude.Results.{Result, ok, raise, ◌>>=◌}

-- Each place that raises `PIOASMError`, and the errors of the language: an instruction past 16 bits in
-- the array, an index out of range, and a shift by a negative count.
pub data AsmError : Type 0 where
  delay_too_large no_sideset sideset_too_large wrap_first duplicate_label unknown_label : AsmError
  bit_count overflow index_error negative_shift : AsmError

-- `sideset_init`, where it is given: one pin, or a list of pins
pub data SidesetInit : Type 0 where
  one : ℕ → SidesetInit
  many : List ℕ → SidesetInit

pub record Options : Type 0 where
  pub out_init : Option ℕ
  pub set_init : Option ℕ
  pub sideset_init : Option SidesetInit
  pub side_pindir : Bool
  pub in_shiftdir : ℕ
  pub out_shiftdir : ℕ
  pub autopush : Bool
  pub autopull : Bool
  pub push_thresh : ℕ
  pub pull_thresh : ℕ
  pub fifo_join : ℕ

abbrev pub default_options : Options
default_options = record {
  out_init = none;
  set_init = none;
  sideset_init = none;
  side_pindir = false;
  in_shiftdir = 0;
  out_shiftdir = 0;
  autopush = false;
  autopull = false;
  push_thresh = 32;
  pull_thresh = 32;
  fifo_join = 0;
}

-- `PIOASMEmit`; the program list is `instrs`, `execctrl`, `shiftctrl` and the three initial values,
-- which stand in `options`.
pub record Emit : Type 0 where
  pub options : Options
  pub labels : List (String × ℕ)
  pub instrs : List ℕ
  pub execctrl : ℕ
  pub shiftctrl : ℕ
  pub wrap_used : Bool
  pub sideset_count : ℕ
  pub pass_no : ℕ
  pub num_instr : ℕ
  pub num_sideset : ℕ
  pub delay_max : ℕ
  pub sideset_opt : Bool

abbrev pub Step : Type 0
Step = Emit → Result AsmError Emit

abbrev pub init_count : Option SidesetInit → ℕ
init_count none = 0
init_count (some (one _)) = 1
init_count (some (many pins)) = length pins

unfoldable pub shift_control : Options → ℕ
shift_control o =
    bit_or
      (bit_or
        (bit_or
          (bit_or
            (bit_or (bit_or (o.fifo_join * 2 ^ 30) (o.pull_thresh % 32 * 2 ^ 25))
              (o.push_thresh % 32 * 2 ^ 20))
            (o.out_shiftdir * 2 ^ 19))
          (o.in_shiftdir * 2 ^ 18))
        (to_ℕ o.autopull * 2 ^ 17))
      (to_ℕ o.autopush * 2 ^ 16)

-- `__init__`
unfoldable pub new_emit : Options → Emit
new_emit o = record {
  options = o;
  labels = [];
  instrs = [];
  execctrl = to_ℕ o.side_pindir * 2 ^ 29;
  shiftctrl = shift_control o;
  wrap_used = false;
  sideset_count = init_count o.sideset_init;
  pass_no = 0;
  num_instr = 0;
  num_sideset = 0;
  delay_max = 31;
  sideset_opt = false;
}

unfoldable pub wrap_target : Step
wrap_target e = ok (record e { execctrl = bit_or e.execctrl (e.num_instr * 2 ^ 7) })

unfoldable pub wrap : Step
wrap e =
    if not (nonzero e.num_instr)
    then raise AsmError.wrap_first
    else ok
        (record e { execctrl = bit_or e.execctrl ((e.num_instr - 1) * 2 ^ 12); wrap_used = true })

-- the side-set mode, which the first pass decides
unfoldable pub side_mode : Emit → Emit
side_mode e =
    let optional = not (e.num_sideset == e.num_instr) in
    let count = e.sideset_count + to_ℕ optional in
    if nonzero e.sideset_count
    then record e {
      sideset_opt = optional;
      execctrl = if optional then bit_or e.execctrl (2 ^ 30) else e.execctrl;
      sideset_count = count;
      delay_max = 31 / 2 ^ count;
    }
    else record e { delay_max = 31 }

abbrev pub enter_pass : ℕ → Emit → Emit
enter_pass n e = record e { pass_no = n; num_instr = 0; num_sideset = 0 }

-- `start_pass(0)` and `start_pass(1)`
unfoldable pub start_first : Emit → Emit
start_first e = enter_pass 0 e

unfoldable pub start_second : Step
unfolding wrap side_mode
start_second e = (if not e.wrap_used && nonzero e.num_instr then wrap e else ok e) >>= λ wrapped.
    ok (enter_pass 1 (side_mode wrapped))

-- `self.prog[P_INSTR][-1] |= bits`
unfoldable pub or_last : ℕ → List ℕ → Result AsmError (List ℕ)
or_last bits [] = raise AsmError.index_error
or_last bits (w ∷ []) =
    if ltb (bit_or w bits) (2 ^ 16) then ok (bit_or w bits ∷ []) else raise AsmError.overflow
or_last bits (v ∷ w ∷ ws) = or_last bits (w ∷ ws) >>= λ rest. ok (v ∷ rest)

unfoldable pub or_word : ℕ → Step
or_word bits e = or_last bits e.instrs >>= λ instrs. ok (record e { instrs = instrs })

unfoldable pub delay : ℕ → Step
delay n e =
    if not (ltb 0 e.pass_no)
    then ok e
    else if ltb e.delay_max n
    then raise AsmError.delay_too_large
    else or_word (n * 2 ^ 8) e

unfoldable pub side : ℕ → Step
side value e' =
    let e = record e' { num_sideset = e'.num_sideset + 1 } in
    if not (ltb 0 e.pass_no)
    then ok e
    else if e.sideset_count == 0
    then raise AsmError.no_sideset
    else if leb (2 ^ e.sideset_count) value
    then raise AsmError.sideset_too_large
    else if ltb 13 e.sideset_count
    then raise AsmError.negative_shift
    else or_word (bit_or (to_ℕ e.sideset_opt * 2 ^ 12) (value * 2 ^ (13 - e.sideset_count))) e

unfoldable pub find_label : String → List (String × ℕ) → Option ℕ
find_label name [] = none
find_label name ((key, address) ∷ labels) =
    if str_eq key name then some address else find_label name labels

unfoldable pub label : String → Step
label name e =
    if nonzero e.pass_no
    then ok e
    else if is_some (find_label name e.labels)
    then raise AsmError.duplicate_label
    else ok (record e { labels = e.labels ++ (name, e.num_instr) ∷ [] })

-- the address of the label of `word`, 0 with no label
unfoldable pub target : Option String → List (String × ℕ) → Result AsmError ℕ
target none labels = ok 0
target (some name) labels = elim (find_label name labels) [
  | none ↦ raise AsmError.unknown_label
  | some address ↦ ok address
]

unfoldable pub append_word : ℕ → Step
append_word w e =
    if ltb w (2 ^ 16)
    then ok (record e { instrs = e.instrs ++ w ∷ [] })
    else raise AsmError.overflow

unfoldable pub word : ℕ → Option String → Step
word instr name e' =
    let e = record e' { num_instr = e'.num_instr + 1 } in
    if not (ltb 0 e.pass_no)
    then ok e
    else (target name e.labels >>= λ address. append_word (bit_or instr address) e)
