-- ===== src/Isa.antt =====
-- The instruction word: `instruction` and `immediate` of test/model/reference.py, the fields that
-- `_step` takes from a word, and the opcodes under their mnemonics of docs/isa.md.
pub mod Valid
use ttihp_protocol_emulator.Prelude.{
  ℕ, ◌+◌, ◌*◌, ◌/◌, ◌%◌, ◌^◌, ◌&&◌, Option, none, some, List, [], ◌∷◌, leb, ltb, get_elem?,
  if◌then◌else◌,
}

pub data Opcode : Type 0 where
  nop halt set dir wait jmp pull push out_pin in_pin count loop limit wait_pin signal : Opcode
  wait_event pins xfer mov load add xor and or shl shr jz not time fault : Opcode

-- The opcodes 0 to 29, in order; any other number is an invalid opcode.
abbrev pub opcodes : List Opcode
opcodes =
    nop ∷ halt ∷ set ∷ dir ∷ wait ∷ jmp ∷ pull ∷ push ∷ out_pin ∷ in_pin ∷ count ∷ loop ∷ limit
    ∷ wait_pin ∷ signal ∷ wait_event ∷ pins ∷ xfer ∷ mov ∷ load ∷ add ∷ xor ∷ and ∷ or ∷ shl ∷ shr
    ∷ jz ∷ not ∷ time ∷ fault ∷ []

unfoldable pub decode : ℕ → Option Opcode
decode op = get_elem? opcodes op

-- `op`, `a`, `b`, `c`, `imm24` and `imm16` of a word
pub record Fields : Type 0 where
  pub op : ℕ
  pub a : ℕ
  pub b : ℕ
  pub c : ℕ
  pub imm24 : ℕ
  pub imm16 : ℕ

unfoldable pub fields : ℕ → Fields
fields word = record {
  op = word / 2 ^ 24;
  a = word / 2 ^ 16 % 256;
  b = word / 2 ^ 8 % 256;
  c = word % 256;
  imm24 = word % 2 ^ 24;
  imm16 = word % 2 ^ 16;
}

-- `none` is `ValueError`; the fields are bytes, so the shifted `|` is a sum.
unfoldable pub instruction : ℕ → ℕ → ℕ → ℕ → Option ℕ
instruction op a b c =
    if leb op 255 && (leb a 255 && (leb b 255 && leb c 255))
    then some (op * 2 ^ 24 + a * 2 ^ 16 + b * 2 ^ 8 + c)
    else none

unfoldable pub immediate : ℕ → ℕ → Option ℕ
immediate op value = if leb op 255 && ltb value (2 ^ 24) then some (op * 2 ^ 24 + value) else none
