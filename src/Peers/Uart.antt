-- ===== src/Peers/Uart.antt =====
-- `UartSource` and `UartMonitor` of host/pe_host/peers.py. A level is 0 or 1.
use ttihp_protocol_emulator.Prelude.{
  ℕ, zero, suc, ◌+◌, ◌-◌, ◌*◌, ◌/◌, ◌%◌, ◌^◌, bit_or, not, ◌&&◌, ◌||◌, Option, none, some, List, [],
  ◌∷◌, ◌++◌, length, any, get_or, ltb, leb, nonzero, ◌==◌, if◌then◌else◌, to_ℕ,
}
use ttihp_protocol_emulator.Prelude.Bits.{bit}

pub record UartSource : Type 0 where
  pub pin : ℕ
  pub words : List ℕ
  pub bit_cycles : ℕ
  pub gap : ℕ
  pub start : Option ℕ
  pub bad_stop : List ℕ

abbrev pub frame_cycles : UartSource → ℕ
frame_cycles u = 10 * u.bit_cycles + u.gap

-- `end`, for a source with a start
unfoldable pub end_of : UartSource → ℕ → ℕ
end_of u start = start + length u.words * frame_cycles u

-- the level of the bit `index` of a frame: the start bit, the word with its lowest bit first, the stop bit
unfoldable pub frame_level : UartSource → ℕ → ℕ → ℕ
frame_level u frame index =
    if index == 0
    then 0
    else if leb index 8
    then to_ℕ (bit (get_or u.words frame 0) (index - 1))
    else if index == 9 && any (λ f. f == frame) u.bad_stop
    then 0
    else 1

unfoldable pub level : UartSource → ℕ → ℕ
unfolding frame_level
level u cycle = elim u.start [
  | none ↦ 1
  | some start ↦
      if ltb cycle start
      then 1
      else let frame = (cycle - start) / frame_cycles u in
        let offset = (cycle - start) % frame_cycles u in
        if leb (length u.words) frame then 1 else frame_level u frame (offset / u.bit_cycles)
]

unfoldable pub source_step : UartSource → ℕ → ℕ → ℕ × ℕ
unfolding level
source_step u cycle pads = (2 ^ u.pin, level u cycle * 2 ^ u.pin)

pub record UartMonitor : Type 0 where
  pub pin : ℕ
  pub bit_cycles : ℕ
  pub words : List ℕ
  pub errors : List ℕ
  pub previous : ℕ
  pub start : Option ℕ
  pub bits : List ℕ

abbrev pub new_monitor : ℕ → ℕ → UartMonitor
new_monitor pin bit_cycles = record {
  pin = pin;
  bit_cycles = bit_cycles;
  words = [];
  errors = [];
  previous = 1;
  start = none;
  bits = [];
}

-- `for i in range(8): word |= bits[1 + i] << i`, from the bit `i` on
unfoldable pub gather : ℕ → ℕ → List ℕ → ℕ → ℕ
gather zero i bits word = word
gather (suc left) i bits word =
    gather left (suc i) bits (bit_or word (get_or bits (1 + i) 0 * 2 ^ i))

-- a framing error is the cycle of its start bit
unfoldable pub take_frame : UartMonitor → ℕ → UartMonitor
unfolding gather
take_frame m started =
    let bad = nonzero (get_or m.bits 0 0) || not (get_or m.bits 9 0 == 1) in
    record m {
      errors = if bad then m.errors ++ started ∷ [] else m.errors;
      words = m.words ++ gather 8 0 m.bits 0 ∷ [];
      start = none;
    }

-- a cycle of a frame that began in the cycle `started`
unfoldable pub within_frame : ℕ → ℕ → ℕ → UartMonitor → UartMonitor
unfolding take_frame
within_frame started cycle lev m =
    let m' = record m { bits = m.bits ++ lev ∷ [] } in
    if (cycle - started) % m.bit_cycles == m.bit_cycles / 2
    then (if length m'.bits == 10 then take_frame m' started else m')
    else m

-- a falling edge starts a frame
unfoldable pub between_frames : ℕ → ℕ → UartMonitor → UartMonitor
between_frames cycle lev m =
    if nonzero m.previous && not (nonzero lev)
    then record m { start = some cycle; bits = [] }
    else m

unfoldable pub sample : ℕ → ℕ → UartMonitor → UartMonitor
unfolding within_frame between_frames
sample cycle lev m =
    let sampled : UartMonitor = elim m.start [
      | none ↦ between_frames cycle lev m
      | some started ↦ within_frame started cycle lev m
    ] in
    record sampled { previous = lev }

unfoldable pub monitor_step : ℕ → ℕ → UartMonitor → UartMonitor
unfolding sample
monitor_step cycle pads m = sample cycle (to_ℕ (bit pads m.pin)) m
