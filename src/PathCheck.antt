-- ===== src/PathCheck.antt =====
-- The exhaustive check of a PIO program's clock and pin schedule: host/pio/pathcheck.py.
pub mod Rules
pub mod Search
pub mod Paths
pub mod Ends
pub mod Lockstep
use ttihp_protocol_emulator.Prelude.{
  ℕ, zero, suc, ◌+◌, ◌*◌, ◌/◌, ◌%◌, ◌^◌, Bool, true, false, not, ◌&&◌, ◌||◌, Option, none, some,
  List, [], ◌∷◌, ◌++◌, length, get_or, get_elem?, set, replicate, any, ltb, leb, ◌==◌,
  if◌then◌else◌,
}
use ttihp_protocol_emulator.Prelude.Bits.{bit, differs}
use ttihp_protocol_emulator.Prelude.Results.{Result, ok, raise, ◌>>=◌}

-- A message of `errors`, with the PC and the slot that it names.
pub data PathError : Type 0 where
  wrong_side drives_at samples_at : ℕ → ℕ → PathError
  target_differs blocks : ℕ → PathError

-- An index out of range, and the end of the fuel.
pub data Stop : Type 0 where
  index_error no_fuel : Stop

-- what `check_program` takes from the program, from its labels and from its caller
pub record Program : Type 0 where
  pub mem : List ℕ
  pub wrap_bottom : ℕ
  pub wrap_top : ℕ
  pub handlers : List ℕ
  pub allowed_blocking : List ℕ

-- `HIGH_SLOTS`, `DRIVE_SLOT` and `SAMPLE_SLOT`, and `ADDR_FETCH` of the lockstep port
abbrev pub template_side : ℕ → Bool
template_side slot = leb slot 2

abbrev pub drive_slot : ℕ
drive_slot = 3

abbrev pub sample_slot : ℕ
sample_slot = 2

abbrev pub addr_fetch : ℕ
addr_fetch = 24

abbrev pub delay_in : ℕ → ℕ
delay_in instr = instr / 2 ^ 8 % 16

-- the middle three bits of the low byte
abbrev pub field : ℕ → ℕ
field instr = instr / 2 ^ 5 % 8

abbrev pub opcode : ℕ → ℕ
opcode instr = instr / 2 ^ 13

unfoldable pub writes_pins : ℕ → Bool
writes_pins instr =
    (opcode instr == 3 && (field instr == 0 || field instr == 4))
    || ((opcode instr == 7 && (field instr == 0 || field instr == 4))
        || (opcode instr == 5 && (field instr == 0 || field instr == 3)))

unfoldable pub reads_pins : ℕ → Bool
reads_pins instr =
    (opcode instr == 2 && field instr == 0)
    || ((opcode instr == 5 && instr % 8 == 0)
        || ((opcode instr == 0 && field instr == 6) || opcode instr == 1))

abbrev pub is_blocking : ℕ → Bool
is_blocking instr = opcode instr == 4 && bit instr 5

-- the rounds of `for k in range(delay + 1)` from `k` on, `left` of them
unfoldable pub side_errors : ℕ → ℕ → ℕ → ℕ → ℕ → List PathError
side_errors zero k pc slot instr = []
side_errors (suc left) k pc slot instr =
    let rest = side_errors left (suc k) pc slot instr in
    if differs (template_side ((slot + k) % 6)) (bit instr 12)
    then wrong_side pc ((slot + k) % 6) ∷ rest
    else rest

-- the next instruction without a jump
abbrev pub fall_through : Program → ℕ → ℕ
fall_through p pc = if pc == p.wrap_top then p.wrap_bottom else (pc + 1) % 32

-- `JMP X--` and `JMP Y--`
abbrev pub counts_down : ℕ → Bool
counts_down instr = opcode instr == 0 && (field instr == 4 || field instr == 2)

unfoldable pub target_errors : Program → ℕ → ℕ → List PathError
target_errors p pc instr =
    if counts_down instr && not (instr % 32 == fall_through p pc)
    then target_differs pc ∷ []
    else []

-- the errors of one state
unfoldable pub state_errors : Program → ℕ → ℕ → ℕ → List PathError
unfolding writes_pins reads_pins side_errors target_errors
state_errors p pc slot instr =
    side_errors (suc (delay_in instr)) 0 pc slot instr
    ++ ((if writes_pins instr && not (slot == drive_slot) then drives_at pc slot ∷ [] else [])
        ++ ((if reads_pins instr && not (slot == sample_slot) then samples_at pc slot ∷ [] else [])
            ++ target_errors p pc instr))

-- `range(i, i + count)`
unfoldable pub range : ℕ → ℕ → List ℕ
range zero i = []
range (suc count) i = i ∷ range count (suc i)

unfoldable pub successors : Program → ℕ → ℕ → List ℕ
unfolding range
successors p pc instr =
    if opcode instr == 0
    then (if counts_down instr || field instr == 0
        then instr % 32 ∷ []
        else instr % 32 ∷ fall_through p pc ∷ [])
    else if opcode instr == 3 && field instr == 5
    then (if instr % 32 == 5 then p.handlers else range (2 ^ (instr % 32)) 0)
    else fall_through p pc ∷ []

abbrev pub next_slot : ℕ → ℕ → ℕ
next_slot slot instr = (slot + delay_in instr + 1) % 6

-- `todo.append((target, nxt_slot))` for each target; the end of the Python list is the head
abbrev pub push_all : List ℕ → ℕ → List (ℕ × ℕ) → List (ℕ × ℕ)
push_all [] slot todo = todo
push_all (target ∷ targets) slot todo = push_all targets slot ((target, slot) ∷ todo)

-- The sets of the loop: `seen` is a table by PC and slot, the others list their members.
pub record Explored : Type 0 where
  pub seen : List Bool
  pub errors : List PathError
  pub drives : List ℕ
  pub samples : List ℕ
  pub blocking : List ℕ

abbrev pub is_seen : Explored → ℕ → ℕ → Bool
is_seen r pc slot = get_or r.seen (pc * 6 + slot) false

-- one state that was not seen
unfoldable pub visit : Program → ℕ → ℕ → ℕ → Explored → Explored
unfolding state_errors
visit p pc slot instr r = record {
  seen = set r.seen (pc * 6 + slot) true;
  errors = r.errors ++ state_errors p pc slot instr;
  drives = if writes_pins instr then pc ∷ r.drives else r.drives;
  samples = if reads_pins instr then pc ∷ r.samples else r.samples;
  blocking = if is_blocking instr then pc ∷ r.blocking else r.blocking;
}

-- `while todo`
unfoldable pub explore : ℕ → Program → List (ℕ × ℕ) → Explored → Result Stop Explored
unfolding visit successors
explore zero p todo r = raise Stop.no_fuel
explore (suc fuel) p [] r = ok r
explore (suc fuel) p ((pc, slot) ∷ todo) r = elim (is_seen r pc slot) [
  | true ↦ explore fuel p todo r
  | false ↦ elim (get_elem? p.mem pc) [
    | none ↦ raise Stop.index_error
    | some instr ↦
        explore fuel p (push_all (successors p pc instr) (next_slot slot instr) todo)
          (visit p pc slot instr r)
  ]
]

abbrev pub nothing_seen : Program → Explored
nothing_seen p = record {
  seen = replicate (length p.mem * 6) false;
  errors = [];
  drives = [];
  samples = [];
  blocking = [];
}

-- more than the states that a program has, times what one may push
abbrev pub enough : Program → ℕ
enough p = 2 + (2 + length p.handlers + 2 ^ 31) * (length p.mem * 6)

-- the blocking instructions that are not allowed
unfoldable pub block_errors : Program → List ℕ → List PathError
block_errors p [] = []
block_errors p (pc ∷ pcs) =
    let rest = block_errors p pcs in
    if any (λ n. n == pc) p.allowed_blocking then rest else blocks pc ∷ rest

unfoldable pub check_program : Program → Result Stop Explored
unfolding explore block_errors
check_program p = explore (enough p) p ((addr_fetch, drive_slot) ∷ []) (nothing_seen p) >>= λ r.
    ok (record r { errors = r.errors ++ block_errors p r.blocking })
