-- ===== src/Host.antt =====
-- The host port's numbers and word encoders: host/pe_host/protocol.py, with the errors of
-- host/pe_host/errors.py.
pub mod Encoders
pub mod Driver
pub mod Commands
pub mod Reads
pub mod Session
pub mod Sha
pub mod Image
use ttihp_protocol_emulator.Prelude.{
  ℕ, ◌+◌, ◌*◌, ◌/◌, ◌%◌, ◌^◌, bit_or, Bool, true, false, not, ◌&&◌, List, [], ◌∷◌, map, ltb, leb,
  Option, none, some, if◌then◌else◌,
}
use ttihp_protocol_emulator.Prelude.Bits.{bit}
use ttihp_protocol_emulator.Prelude.Results.{Result, ok, raise}

-- `ValueError`, the classes of errors.py, and the exceptions of the language
pub data HostError : Type 0 where
  value_error host_error host_timeout command_rejected engine_fault isa_mismatch : HostError
  image_error : HostError

abbrev pub ui_wvalid : ℕ
ui_wvalid = 0x10

abbrev pub ui_rready : ℕ
ui_rready = 0x20

-- the tests of a sampled byte: `uo & UO_WREADY` and so on
abbrev pub uo_wready : ℕ → Bool
uo_wready uo = bit uo 4

abbrev pub uo_rvalid : ℕ → Bool
uo_rvalid uo = bit uo 5

abbrev pub uo_irq : ℕ → Bool
uo_irq uo = bit uo 6

abbrev pub uo_fault : ℕ → Bool
uo_fault uo = bit uo 7

abbrev pub w_command : ℕ
w_command = 0

abbrev pub w_program : ℕ
w_program = 1

abbrev pub w_tx : ℕ
w_tx = 2

abbrev pub w_rx : ℕ
w_rx = 3

-- the commands, by number
abbrev pub op_select : ℕ
op_select = 0

abbrev pub op_begin : ℕ
op_begin = 1

abbrev pub op_commit : ℕ
op_commit = 2

abbrev pub op_own : ℕ
op_own = 3

abbrev pub op_start : ℕ
op_start = 4

abbrev pub op_stop : ℕ
op_stop = 5

abbrev pub op_route : ℕ
op_route = 6

abbrev pub op_clear : ℕ
op_clear = 7

abbrev pub op_read_select : ℕ
op_read_select = 8

abbrev pub op_event : ℕ
op_event = 9

abbrev pub op_flush : ℕ
op_flush = 10

abbrev pub op_trigger : ℕ
op_trigger = 11

-- the indices of READ_SELECT
abbrev pub rs_status : ℕ
rs_status = 0

abbrev pub rs_timestamp : ℕ
rs_timestamp = 1

abbrev pub rs_levels : ℕ
rs_levels = 2

abbrev pub rs_pc : ℕ
rs_pc = 3

abbrev pub rs_event : ℕ
rs_event = 4

abbrev pub rs_count : ℕ
rs_count = 5

abbrev pub rs_held_rx : ℕ
rs_held_rx = 6

abbrev pub rs_version : ℕ
rs_version = 7

abbrev pub clear_host_fault : ℕ
clear_host_fault = 2 ^ 23

unfoldable pub ui_byte : ℕ → Bool → Bool → ℕ → ℕ
ui_byte window wvalid rready nibble =
    bit_or
      (bit_or (bit_or (window % 4 * 2 ^ 6) (if wvalid then ui_wvalid else 0))
        (if rready then ui_rready else 0))
      (nibble % 16)

unfoldable pub command_word : ℕ → ℕ → Result HostError ℕ
command_word op payload =
    if not (leb op 255 && ltb payload (2 ^ 24))
    then raise HostError.value_error
    else ok (bit_or (op * 2 ^ 24) payload)

-- `[(word >> (4 * i)) & 15 for i in range(8)]`
unfoldable pub nibbles : ℕ → List ℕ
nibbles word = map (λ i. word / 2 ^ (4 * i) % 16) (0 ∷ 1 ∷ 2 ∷ 3 ∷ 4 ∷ 5 ∷ 6 ∷ 7 ∷ [])

unfoldable pub own_payload : ℕ → ℕ → Result HostError ℕ
own_payload pins open_drain =
    if not (leb pins 255 && leb open_drain 255)
    then raise HostError.value_error
    else ok (bit_or pins (open_drain * 2 ^ 8))

unfoldable pub route_payload : ℕ → ℕ → ℕ → Bool → Result HostError ℕ
route_payload source destination count enable =
    if not (leb source 3 && leb destination 3)
    then raise HostError.value_error
    else if not (leb count 0xffff)
    then raise HostError.value_error
    else ok (
        bit_or (bit_or (bit_or source (destination * 2 ^ 2)) (if enable then 16 else 0))
          (count * 2 ^ 5))

unfoldable pub trigger_payload : ℕ → ℕ → Bool → Result HostError ℕ
trigger_payload pin mode enable =
    if not (leb pin 7 && leb mode 3)
    then raise HostError.value_error
    else ok (bit_or (bit_or pin (mode * 2 ^ 3)) (if enable then 32 else 0))

unfoldable pub split_levels : ℕ → ℕ × ℕ
split_levels word = (word % 2 ^ 16, word / 2 ^ 16 % 2 ^ 16)

-- the decoded READ_SELECT 0 word
pub record Status : Type 0 where
  pub word : ℕ
  pub engine : Option ℕ
  pub running : Bool
  pub committed : Bool
  pub stalled : Bool
  pub faulted : Bool
  pub fault : ℕ

unfoldable pub decode_status : ℕ → Option ℕ → Status
decode_status word engine = record {
  word = word;
  engine = engine;
  running = bit word 0;
  committed = bit word 1;
  stalled = bit word 2;
  faulted = bit word 3;
  fault = if bit word 3 then word / 2 ^ 8 % 256 else 0;
}

pub record Flags : Type 0 where
  pub nibble : ℕ
  pub write_ready : Bool
  pub read_valid : Bool
  pub irq : Bool
  pub fault : Bool

unfoldable pub decode_uo : ℕ → Flags
decode_uo uo = record {
  nibble = uo % 16;
  write_ready = uo_wready uo;
  read_valid = uo_rvalid uo;
  irq = uo_irq uo;
  fault = uo_fault uo;
}
