-- ===== src/Pio/Execute.antt =====
-- `_execute` of host/pio/sim.py, an opcode at a time. A result is the new state with the two flags that
-- the code returns: stalled and jumped.
use ttihp_protocol_emulator.Prelude.{
  ℕ, ◌+◌, ◌-◌, ◌/◌, ◌%◌, ◌^◌, bit_or, Bool, true, false, not, ◌&&◌, ◌||◌, some, [], ◌∷◌, ◌++◌,
  nonempty, length, ltb, leb, nonzero, ◌==◌, if◌then◌else◌,
}
use ttihp_protocol_emulator.Prelude.Bits.{bit, and_not}
use ttihp_protocol_emulator.Prelude.Results.{Result, ok, raise, ◌>>=◌}
use ttihp_protocol_emulator.Pio.{StateMachine, Core, PioError, m32, bit_reverse, rx_depth}
use ttihp_protocol_emulator.Pio.Helpers.{
  status, pins_in, write_pins, irq_index, refill, shift_count, shift_out, shift_in_value,
}

abbrev pub Outcome : Type 0
Outcome = Result PioError (Core × Bool × Bool)

-- `return stalled, jumped`
abbrev pub ends : Core → Bool → Bool → Outcome
ends core stalled jumped = ok (core, stalled, jumped)

abbrev pub done : Core → Outcome
done core = ends core false false

abbrev pub with_sm : Core → StateMachine → Core
with_sm core sm = record core { sm = sm }

abbrev pub drives : Core → ℕ → ℕ → ℕ → Bool → Core
drives core base count value dirs = record core {
  block = write_pins base count value dirs core.block;
}

-- `(value - 1) & M32`
abbrev pub decrement : ℕ → ℕ
decrement value = (value + m32) % 2 ^ 32

abbrev pub jumps : Core → Bool → ℕ → Outcome
jumps core take addr =
    ends (if take then record core { sm = record core.sm { pc = addr } } else core) false take

unfoldable pub execute_jmp : Core → ℕ → ℕ → Outcome
execute_jmp core low visible =
    let sm = core.sm in
    let cond = low / 2 ^ 5 % 8 in
    let addr = low % 32 in
    if cond == 0
    then jumps core true addr
    else if cond == 1
    then jumps core (sm.x == 0) addr
    else if cond == 2
    then jumps (with_sm core (record sm { x = decrement sm.x })) (nonzero sm.x) addr
    else if cond == 3
    then jumps core (sm.y == 0) addr
    else if cond == 4
    then jumps (with_sm core (record sm { y = decrement sm.y })) (nonzero sm.y) addr
    else if cond == 5
    then jumps core (not (sm.x == sm.y)) addr
    else if cond == 6
    then jumps core (bit visible sm.config.jmp_pin) addr
    else jumps core (ltb sm.osr_count sm.config.pull_thresh) addr

-- `level != pol`
abbrev pub waits : Core → Bool → Bool → Outcome
waits core level pol = ends core (if pol then not level else level) false

abbrev pub with_irq : Core → ℕ → Core
with_irq core flags = record core { block = record core.block { irq = flags } }

unfoldable pub wait_irq : Core → ℕ → Bool → Outcome
wait_irq core index pol = irq_index core index >>= λ flag.
    if bit core.block.irq flag && pol
    then done (with_irq core (and_not core.block.irq (2 ^ flag)))
    else waits core (bit core.block.irq flag) pol

unfoldable pub execute_wait : Core → ℕ → ℕ → Outcome
execute_wait core low visible =
    let c = core.sm.config in
    let pol = bit low 7 in
    let src = low / 2 ^ 5 % 4 in
    let index = low % 32 in
    if src == 0
    then waits core (bit visible index) pol
    else if src == 1
    then waits core (bit visible ((c.in_base + index) % 32)) pol
    else if src == 2
    then wait_irq core index pol
    else if core.block.rp2350
    then waits core (bit visible ((c.jmp_pin + index % 4) % 32)) pol
    else raise PioError.wait_source

unfoldable pub in_source : Core → ℕ → ℕ → Result PioError ℕ
in_source core src visible =
    if src == 0
    then ok (pins_in core visible)
    else if src == 1
    then ok core.sm.x
    else if src == 2
    then ok core.sm.y
    else if src == 3
    then ok 0
    else if src == 6
    then ok core.sm.isr
    else if src == 7
    then ok core.sm.osr
    else raise PioError.in_source

-- what IN does with the ISR and the count of `_shift_in_value`
unfoldable pub shifted_in : Core → ℕ × ℕ → Outcome
shifted_in core (isr, count) =
    let sm = core.sm in
    if sm.config.autopush && leb sm.config.push_thresh count
    then if leb (rx_depth sm.config) (length sm.rx)
      then ends (with_sm core (record sm { rxstall = true })) true false
      else done (with_sm core (record sm { rx = sm.rx ++ isr ∷ []; isr = 0; isr_count = 0 }))
    else done (with_sm core (record sm { isr = isr; isr_count = count }))

unfoldable pub execute_in : Core → ℕ → ℕ → Outcome
execute_in core low visible = in_source core (low / 2 ^ 5 % 8) visible >>= λ bits.
    shifted_in core (shift_in_value core.sm bits (low % 32))

-- the write of OUT to its destination
unfoldable pub out_destination : Core → ℕ → ℕ → ℕ → Outcome
out_destination core dest bits n =
    let sm = core.sm in
    let c = sm.config in
    if dest == 0
    then done (drives core c.out_base c.out_count bits false)
    else if dest == 1
    then done (with_sm core (record sm { x = bits }))
    else if dest == 2
    then done (with_sm core (record sm { y = bits }))
    else if dest == 3
    then done core
    else if dest == 4
    then done (drives core c.out_base c.out_count bits true)
    else if dest == 5
    then ends (with_sm core (record sm { pc = bits % 32 })) false true
    else if dest == 6
    then done (with_sm core (record sm { isr = bits; isr_count = shift_count n }))
    else done (with_sm core (record sm { exec_next = some (bits % 2 ^ 16) }))

-- the refill that follows the shift
abbrev pub refilled : StateMachine → StateMachine
refilled sm =
    if sm.config.autopull && (leb sm.config.pull_thresh sm.osr_count && nonempty sm.tx)
    then refill sm
    else sm

unfoldable pub execute_out : Core → ℕ → Outcome
execute_out core low =
    let sm = core.sm in
    let n = low % 32 in
    if sm.config.autopull && leb sm.config.pull_thresh sm.osr_count
    then ends (with_sm core (if nonempty sm.tx then refill sm else record sm { txstall = true }))
        true false
    else let (sm', bits) = shift_out sm n in
      out_destination (with_sm core (refilled sm')) (low / 2 ^ 5 % 8) bits n

unfoldable pub execute_pull : Core → Bool → Bool → Outcome
execute_pull core if_flag block =
    let sm = core.sm in
    if (if_flag || sm.config.autopull) && ltb sm.osr_count sm.config.pull_thresh
    then done core
    else if not (nonempty sm.tx)
    then if block
      then ends (with_sm core (record sm { txstall = true })) true false
      else done (with_sm core (record sm { osr = sm.x; osr_count = 0 }))
    else done (with_sm core (refill sm))

unfoldable pub execute_push : Core → Bool → Bool → Outcome
execute_push core if_flag block =
    let sm = core.sm in
    if if_flag && ltb sm.isr_count sm.config.push_thresh
    then done core
    else if leb (rx_depth sm.config) (length sm.rx)
    then if block
      then ends (with_sm core (record sm { rxstall = true })) true false
      else done (with_sm core (record sm { rxstall = true; isr = 0; isr_count = 0 }))
    else done (with_sm core (record sm { rx = sm.rx ++ sm.isr ∷ []; isr = 0; isr_count = 0 }))

unfoldable pub execute_push_pull : Core → ℕ → Outcome
execute_push_pull core low =
    if nonzero (low % 32)
    then raise
        (if core.block.rp2350 && bit low 4 then PioError.fifo_register else PioError.push_pull)
    else if bit low 7
    then execute_pull core (bit low 6) (bit low 5)
    else execute_push core (bit low 6) (bit low 5)

unfoldable pub mov_source : Core → ℕ → ℕ → Result PioError ℕ
mov_source core src visible =
    if src == 0
    then ok (pins_in core visible)
    else if src == 1
    then ok core.sm.x
    else if src == 2
    then ok core.sm.y
    else if src == 3
    then ok 0
    else if src == 5
    then status core
    else if src == 6
    then ok core.sm.isr
    else if src == 7
    then ok core.sm.osr
    else raise PioError.mov_source

unfoldable pub mov_operation : ℕ → ℕ → Result PioError ℕ
mov_operation operation value =
    if operation == 1
    then ok (m32 - value % 2 ^ 32)
    else if operation == 2
    then ok (bit_reverse value)
    else if operation == 3
    then raise PioError.mov_operation
    else ok value

unfoldable pub mov_destination : Core → ℕ → ℕ → Outcome
mov_destination core dest value =
    let sm = core.sm in
    let c = sm.config in
    if dest == 0
    then done (drives core c.out_base c.out_count value false)
    else if dest == 1
    then done (with_sm core (record sm { x = value }))
    else if dest == 2
    then done (with_sm core (record sm { y = value }))
    else if dest == 3
    then if core.block.rp2350
      then done (drives core c.out_base c.out_count value true)
      else raise PioError.mov_pindirs
    else if dest == 4
    then done (with_sm core (record sm { exec_next = some (value % 2 ^ 16) }))
    else if dest == 5
    then ends (with_sm core (record sm { pc = value % 32 })) false true
    else if dest == 6
    then done (with_sm core (record sm { isr = value; isr_count = 0 }))
    else done (with_sm core (record sm { osr = value; osr_count = 0 }))

unfoldable pub execute_mov : Core → ℕ → ℕ → Outcome
execute_mov core low visible = mov_source core (low % 8) visible >>= λ value.
    mov_operation (low / 2 ^ 3 % 4) value >>= λ moved. mov_destination core (low / 2 ^ 5 % 8) moved

unfoldable pub execute_irq : Core → ℕ → Outcome
execute_irq core low =
    let clear = bit low 6 in
    let wait = bit low 5 in
    irq_index core (low % 32) >>= λ flag.
    if core.sm.stalled && (wait && not clear)
    then ends core (bit core.block.irq flag) false
    else if clear
    then done (with_irq core (and_not core.block.irq (2 ^ flag)))
    else ends (with_irq core (bit_or core.block.irq (2 ^ flag))) wait false

unfoldable pub execute_set : Core → ℕ → Outcome
execute_set core low =
    let c = core.sm.config in
    let dest = low / 2 ^ 5 % 8 in
    let value = low % 32 in
    if dest == 0
    then done (drives core c.set_base c.set_count value false)
    else if dest == 1
    then done (with_sm core (record core.sm { x = value }))
    else if dest == 2
    then done (with_sm core (record core.sm { y = value }))
    else if dest == 4
    then done (drives core c.set_base c.set_count value true)
    else raise PioError.set_destination

unfoldable pub execute : Core → ℕ → ℕ → Outcome
execute core instr visible =
    let op = instr / 2 ^ 13 in
    let low = instr % 256 in
    if op == 0
    then execute_jmp core low visible
    else if op == 1
    then execute_wait core low visible
    else if op == 2
    then execute_in core low visible
    else if op == 3
    then execute_out core low
    else if op == 4
    then execute_push_pull core low
    else if op == 5
    then execute_mov core low visible
    else if op == 6
    then execute_irq core low
    else execute_set core low
