-- ===== src/Host/Encoders.antt =====
-- What the words of host/pe_host/protocol.py mean to the chip: the reference model of
-- test/model/reference.py decodes what the encoders put in, and the decoders give back what it shows.
use ttihp_protocol_emulator.Prelude.{
  ℕ, ◌+◌, ◌*◌, ◌/◌, ◌%◌, ◌^◌, ◌<◌, ◌≤◌, bit_or, Bool, true, false, ◌&&◌, Option, none, some, ◌≡◌,
  refl, ◌∙◌, arith, if◌then◌else◌, nonzero, to_ℕ, set,
}
use ttihp_protocol_emulator.Prelude.Bits.{bit}
use ttihp_protocol_emulator.Prelude.Widths.{bit_or_sum, bit_or_comm, bit-digit}
use ttihp_protocol_emulator.Prelude.Results.{ok}
use ttihp_protocol_emulator.Config.{Config}
use ttihp_protocol_emulator.Engine.{Engine}
use ttihp_protocol_emulator.Machine.{Machine}
use ttihp_protocol_emulator.Machine.Command.{HostOp, host_op, rejects, effect, command, refuse}
use ttihp_protocol_emulator.Machine.Read.{status_word}
use ttihp_protocol_emulator.Host.{op_route, command_word, route_payload, decode_status}

pub command_word-fields :
    (op payload word : ℕ)
    → command_word op payload ≡ ok word
    → (word / 2 ^ 24 ≡ op) × (word % 2 ^ 24 ≡ payload)
unfolding command_word
command_word-fields op payload word h =
    let joined : payload < 2 ^ 24 → bit_or (op * 2 ^ 24) payload ≡ payload + op * 2 ^ 24 =
      λ small. bit_or_comm (op * 2 ^ 24) payload ∙ bit_or_sum 24 payload op small in
    (ground (arith, joined), ground (arith, joined))

route_sum :
    (source destination count : ℕ) (enable : Bool)
    → source < 4
    → destination < 4
    → bit_or
        (bit_or (bit_or source (destination * 2 ^ 2)) (if enable then 16 else 0))
        (count * 2 ^ 5)
      ≡ source + destination * 4 + to_ℕ enable * 16 + count * 32
route_sum source destination count enable h k =
    let switched : (if enable then 16 else 0) ≡ to_ℕ enable * 2 ^ 4 = ground arith in
    let one : to_ℕ enable ≤ 1 = ground arith in
    let ends = bit_or_sum 2 source destination h in
    let flag = bit_or_sum 4 (source + destination * 2 ^ 2) (to_ℕ enable) (omega arith) in
    let whole =
      bit_or_sum 5 (source + destination * 2 ^ 2 + to_ℕ enable * 2 ^ 4) count (omega arith) in
    rw (ends, switched, flag, whole) (omega arith)

route_payload-sum :
    (source destination count payload : ℕ) (enable : Bool)
    → route_payload source destination count enable ≡ ok payload
    → (source < 4)
      × (destination < 4)
      × (count < 2 ^ 16)
      × (payload ≡ source + destination * 4 + to_ℕ enable * 16 + count * 32)
unfolding route_payload
route_payload-sum source destination count payload enable h =
    let sum = route_sum source destination count enable in
    (ground arith, ground arith, ground arith, ground (arith, sum))

-- `command` on the two fields of its word
abbrev pub decided : Config → Machine → ℕ → ℕ → Machine × Bool
decided cfg m op payload = elim (host_op op) [
  | none ↦ refuse m
  | some o ↦ if rejects cfg o m payload then refuse m else (effect o m payload, true)
]

-- ROUTE with a payload of `route_payload`, to a chip that has both engines: the descriptor of the source
-- is the destination with the count, or none where the route is disabled or the count is 0; and
-- nothing else changes.
pub command-route :
    (cfg : Config) (m : Machine) (source destination count payload word : ℕ) (enable : Bool)
    → source < cfg.engines
    → destination < cfg.engines
    → route_payload source destination count enable ≡ ok payload
    → command_word op_route payload ≡ ok word
    → command cfg m word ≡ (
      record m {
        routes = set m.routes source (
            if enable && nonzero count
            then some (record { dest = destination; count = count })
            else none);
      },
      true,
    )
unfolding command host_op rejects effect
command-route cfg m source destination count payload word enable h k p w =
    let fields = command_word-fields op_route payload word w in
    let (near, far, small, sum) = route_payload-sum source destination count payload enable p in
    let one : to_ℕ enable ≤ 1 = ground arith in
    let from : payload % 4 ≡ source = omega arith in
    let to : payload / 2 ^ 2 % 4 ≡ destination = omega arith in
    let kept : payload / 2 ^ 5 % 2 ^ 16 ≡ count = omega arith in
    let high : payload / 2 ^ 21 ≡ 0 = omega arith in
    let enabled : bit payload 4 ≡ enable = bit-digit payload 4 ∙ ground arith in
    let accepted : rejects cfg HostOp.route m payload ≡ false = ground arith in
    let decoded : command cfg m word ≡ decided cfg m op_route payload =
      λ i. decided cfg m (fields.0 i) (fields.1 i) in
    decoded ∙ rw (accepted, enabled, kept, to, from) refl

status_sum :
    (running committed stalled faulted : Bool) (fault : ℕ)
    → bit_or
        (bit_or
          (bit_or (bit_or (to_ℕ running) (to_ℕ committed * 2)) (to_ℕ stalled * 2 ^ 2))
          (to_ℕ faulted * 2 ^ 3))
        (fault * 2 ^ 8)
      ≡ to_ℕ running + to_ℕ committed * 2 + to_ℕ stalled * 4 + to_ℕ faulted * 8 + fault * 256
status_sum running committed stalled faulted fault =
    let a : to_ℕ running ≤ 1 = ground arith in
    let b : to_ℕ committed ≤ 1 = ground arith in
    let c : to_ℕ stalled ≤ 1 = ground arith in
    let d : to_ℕ faulted ≤ 1 = ground arith in
    let one = bit_or_sum 1 (to_ℕ running) (to_ℕ committed) (omega arith) in
    let two = bit_or_sum 2 (to_ℕ running + to_ℕ committed * 2) (to_ℕ stalled) (omega arith) in
    let three =
      bit_or_sum 3 (to_ℕ running + to_ℕ committed * 2 + to_ℕ stalled * 2 ^ 2) (to_ℕ faulted)
        (omega arith) in
    let four =
      bit_or_sum 8 (to_ℕ running + to_ℕ committed * 2 + to_ℕ stalled * 2 ^ 2 + to_ℕ faulted * 2 ^ 3)
        fault (omega arith) in
    rw (one, two, three, four) (omega arith)

-- The status word of an engine with a fault code of eight bits decodes to its flags and its fault.
pub decode_status-status_word :
    (e : Engine) (number : Option ℕ)
    → e.fault < 256
    → decode_status (status_word e) number ≡ record {
      word = status_word e;
      engine = number;
      running = e.running;
      committed = e.committed;
      stalled = e.stalled;
      faulted = nonzero e.fault;
      fault = e.fault;
    }
unfolding decode_status status_word
decode_status-status_word e number h =
    let sum = status_sum e.running e.committed e.stalled (nonzero e.fault) e.fault in
    let word : ℕ = status_word e in
    let digits : word
        ≡ to_ℕ e.running
          + to_ℕ e.committed * 2
          + to_ℕ e.stalled * 4
          + to_ℕ (nonzero e.fault) * 8
          + e.fault * 256 =
      sum in
    ground (arith, digits, bit-digit word 0, bit-digit word 1, bit-digit word 2, bit-digit word 3)
