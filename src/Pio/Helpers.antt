-- ===== src/Pio/Helpers.antt =====
-- The helpers of `StateMachine` in host/pio/sim.py: status, pins, side-set and delay fields, shifts.
use Prim.Native.Nat.{min}
use ttihp_protocol_emulator.Prelude.{
  ℕ, zero, suc, ◌+◌, ◌-◌, ◌*◌, ◌/◌, ◌%◌, ◌^◌, bit_or, Bool, not, ◌&&◌, Option, none, some, nonempty,
  popleft, get_or, length, ltb, leb, nonzero, ◌==◌, if◌then◌else◌, to_ℕ,
}
use ttihp_protocol_emulator.Prelude.Bits.{bit}
use ttihp_protocol_emulator.Prelude.Widths.{put_bit}
use ttihp_protocol_emulator.Prelude.Results.{Result, ok, raise}
use ttihp_protocol_emulator.Pio.{
  StateMachineConfig, StateMachine, Shared, Core, PioError, m32, masked, rotate_right,
}

unfoldable pub status : Core → Result PioError ℕ
status core =
    let c = core.sm.config in
    if c.status_sel == 0
    then ok (if ltb (length core.sm.tx) c.status_n then m32 else 0)
    else if c.status_sel == 1
    then ok (if ltb (length core.sm.rx) c.status_n then m32 else 0)
    else if c.status_sel == 2 && core.block.rp2350
    then ok (if bit core.block.irq (c.status_n % 8) then m32 else 0)
    else raise PioError.reserved_status

unfoldable pub pins_in : Core → ℕ → ℕ
unfolding rotate_right
pins_in core visible =
    let c = core.sm.config in
    let value = rotate_right visible c.in_base in
    if core.block.rp2350 && nonzero c.in_count then masked value c.in_count else value

-- The first `n` rounds of the loop of `_write_pins`, on the register that it writes.
unfoldable pub write_levels : ℕ → ℕ → ℕ → ℕ → ℕ
write_levels base zero value reg = reg
write_levels base (suc n) value reg =
    put_bit (write_levels base n value reg) ((base + n) % 32) (bit value n)

unfoldable pub write_pins : ℕ → ℕ → ℕ → Bool → Shared → Shared
write_pins base count value dirs blk =
    if dirs
    then record blk { oe = write_levels base count value blk.oe }
    else record blk { out = write_levels base count value blk.out }

unfoldable pub irq_index : Core → ℕ → Result PioError ℕ
irq_index core index =
    if core.block.rp2350 && bit index 3
    then raise PioError.irq_mode
    else if bit index 4
    then ok (bit_or (to_ℕ (bit index 2) * 4) ((index + core.sm.index) % 4))
    else ok (index % 8)

-- the bits that the side-set takes of the delay field
abbrev pub side_bits : StateMachineConfig → ℕ
side_bits c = c.sideset_count + to_ℕ c.sideset_opt

unfoldable pub side_set : StateMachineConfig → ℕ → Result PioError (Option ℕ)
side_set c instr =
    let field = instr / 2 ^ 8 % 32 in
    if not (nonzero c.sideset_count) && not c.sideset_opt
    then ok none
    else if c.sideset_opt && not (bit field 4)
    then ok none
    else if ltb 5 (side_bits c)
    then raise PioError.negative_shift
    else ok (some (masked (field / 2 ^ (5 - side_bits c)) c.sideset_count))

unfoldable pub delay_of : StateMachineConfig → ℕ → Result PioError ℕ
delay_of c instr =
    if ltb 5 (side_bits c)
    then raise PioError.negative_shift
    else ok (masked (instr / 2 ^ 8) (5 - side_bits c))

unfoldable pub refill : StateMachine → StateMachine
refill sm = record sm { osr = get_or sm.tx 0 0; osr_count = 0; tx = popleft sm.tx }

unfoldable pub background_pull : StateMachine → StateMachine
unfolding refill
background_pull sm =
    if sm.config.autopull && (leb sm.config.pull_thresh sm.osr_count && nonempty sm.tx)
    then refill sm
    else sm

-- `n or 32`
abbrev pub shift_count : ℕ → ℕ
shift_count n = if n == 0 then 32 else n

unfoldable pub shift_out : StateMachine → ℕ → StateMachine × ℕ
shift_out sm n' =
    let n = shift_count n' in
    let taken = λ (rest : ℕ). record sm { osr = rest; osr_count = min 32 (sm.osr_count + n) } in
    if sm.config.out_shift_right
    then (taken (if leb 32 n then 0 else sm.osr / 2 ^ n), masked sm.osr n)
    else (
      taken (if leb 32 n then 0 else sm.osr * 2 ^ n % 2 ^ 32),
      if ltb n 32 then masked (sm.osr / 2 ^ (32 - n)) n else sm.osr,
    )

-- the ISR and the count that an IN leaves
unfoldable pub shift_in_value : StateMachine → ℕ → ℕ → ℕ × ℕ
shift_in_value sm value n' =
    let n = shift_count n' in
    let bits = masked value n in
    if leb 32 n then (bits, 32) else (
      (if sm.config.in_shift_right
            then bit_or (sm.isr / 2 ^ n) (bits * 2 ^ (32 - n))
            else bit_or (sm.isr * 2 ^ n) bits % 2 ^ 32)
          % 2 ^ 32,
      min 32 (sm.isr_count + n),
    )
