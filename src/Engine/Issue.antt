-- ===== src/Engine/Issue.antt =====
-- The instruction part of `_step` in test/model/reference.py: the fetch, the operand and ownership
-- checks, and what each opcode does. `retire` is the common end of `_step`.
use ttihp_protocol_emulator.Prelude.{
  ℕ, ◌+◌, ◌-◌, ◌*◌, ◌/◌, ◌%◌, ◌^◌, bit_and, bit_or, bit_xor, Bool, true, false, not, ◌&&◌, ◌||◌,
  none, some, nonzero, to_ℕ, ltb, leb, ◌==◌, length, get_or, if◌then◌else◌,
}
use ttihp_protocol_emulator.Prelude.Bits.{bit, and_not}
use ttihp_protocol_emulator.Config.{Config}
use ttihp_protocol_emulator.Isa.{Opcode, Fields, decode, fields}
use ttihp_protocol_emulator.Isa.Valid.{invalid}
use ttihp_protocol_emulator.Engine.{Engine, Accepted, nothing, fail}
use ttihp_protocol_emulator.Engine.Fault
use ttihp_protocol_emulator.Engine.Pads.{reg, set_reg, drive, next_out, shift_out, shift_in}

-- `e.pc = next_pc; e.completed = ...; return pop, push, signal`
unfoldable pub retire : Engine → ℕ → Accepted → Engine × Accepted
retire e next_pc acc = (record e { pc = next_pc; completed = (e.completed + 1) % 2 ^ 32 }, acc)

-- an instruction that only changes the engine
unfoldable pub advance : Engine → Engine × Accepted
unfolding retire
advance e = retire e (e.pc + 1) nothing

-- `return False, False, 0` with the PC where it was
abbrev pub hold : Engine → Engine × Accepted
hold e = (e, nothing)

-- WAITPIN and WAITEVENT while what they wait for is not there
unfoldable pub blocked_wait : Engine → Engine × Accepted
unfolding fail
blocked_wait e =
    let e' = record e { blocked = e.blocked + 1; stalled = true } in
    if leb e'.limit e'.blocked then hold (fail e' Fault.timeout) else hold e'

module _ (cfg : Config) where
  -- the issue of XFER
  unfoldable pub issue_xfer : Engine → Fields → Engine × Accepted
  unfolding fail
  issue_xfer e f =
      let required = bit_or (2 ^ e.pins.clock) (if bit f.c 3 then 2 ^ e.pins.tx else 0) in
      if nonzero (and_not required e.ownership) || (bit f.c 3 && e.pins.clock == e.pins.tx)
      then hold (fail e Fault.pin_ownership)
      else (let e' = drive e e.pins.clock (f.c % 2) in
          let e'' =
            if bit f.c 3 && not (bit f.c 1)
            then drive e' e'.pins.tx (next_out cfg e' (bit f.c 2))
            else e' in
          hold (record e'' {
            transfer = some (record {
              bits = f.a;
              half_period = f.b;
              flags = f.c;
              remaining = f.b;
              transitions = 0;
            });
          }))

  module _ (sync2 timestamp : ℕ) (tx_available rx_space : Bool) where
    unfoldable pub execute : Opcode → Engine → Fields → Engine × Accepted
    unfolding advance blocked_wait fail
    execute Opcode.nop e f = advance e
    execute Opcode.halt e f = advance (record e { running = false; direction = 0 })
    execute Opcode.set e f = advance (record e { values = f.imm24 })
    execute Opcode.dir e f = advance (record e { direction = f.imm24 })
    execute Opcode.wait e f = advance (record e { wait = f.imm24 })
    execute Opcode.jmp e f = retire e f.imm24 nothing
    execute Opcode.pull e f =
        if tx_available
        then retire (set_reg e 0 (get_or e.tx 0 0)) (e.pc + 1)
            (record { pop = true; push = false; signal = 0 })
        else hold (record e { stalled = true })
    execute Opcode.push e f =
        if rx_space
        then retire e (e.pc + 1) (record { pop = false; push = true; signal = 0 })
        else if nonzero f.a
        then hold (fail e Fault.rx_overflow)
        else hold (record e { stalled = true })
    execute Opcode.out_pin e f = advance (shift_out cfg e f.a (nonzero f.c))
    execute Opcode.in_pin e f = advance (shift_in cfg sync2 e f.a (nonzero f.c))
    execute Opcode.count e f = advance (record e { repeat = f.imm16 })
    execute Opcode.loop e f =
        if nonzero e.repeat
        then retire (record e { repeat = e.repeat - 1 }) f.imm24 nothing
        else advance e
    execute Opcode.limit e f = advance (record e { limit = f.imm24 })
    execute Opcode.wait_pin e f =
        if to_ℕ (bit sync2 f.a) == f.b then advance (record e { blocked = 0 }) else blocked_wait e
    execute Opcode.signal e f =
        retire e (e.pc + 1) (record { pop = false; push = false; signal = f.imm24 })
    execute Opcode.wait_event e f =
        if e.event then advance (record e { event = false; blocked = 0 }) else blocked_wait e
    execute Opcode.pins e f = advance (record e {
      pins = record { clock = f.imm24 % 8; tx = f.imm24 / 2 ^ 3 % 8; rx = f.imm24 / 2 ^ 6 % 8 };
    })
    execute Opcode.xfer e f = issue_xfer e f
    execute Opcode.mov e f = advance (set_reg e f.a (reg e f.b))
    execute Opcode.load e f = advance (set_reg e f.a f.imm16)
    execute Opcode.add e f = advance (set_reg e f.a ((reg e f.a + reg e f.b) % 2 ^ cfg.width))
    execute Opcode.xor e f = advance (set_reg e f.a (bit_xor (reg e f.a) (reg e f.b)))
    execute Opcode.and e f = advance (set_reg e f.a (bit_and (reg e f.a) (reg e f.b)))
    execute Opcode.or e f = advance (set_reg e f.a (bit_or (reg e f.a) (reg e f.b)))
    execute Opcode.shl e f = advance (set_reg e f.a (reg e f.a * 2 ^ f.c % 2 ^ cfg.width))
    execute Opcode.shr e f = advance (set_reg e f.a (reg e f.a / 2 ^ f.c))
    execute Opcode.jz e f = if reg e f.a == 0 then retire e f.imm16 nothing else advance e
    execute Opcode.not e f = advance (set_reg e f.a (bit_xor (reg e f.a) (2 ^ cfg.width - 1)))
    execute Opcode.time e f = advance (set_reg e f.a (timestamp % 2 ^ cfg.width))
    execute Opcode.fault e f = hold (fail e f.imm24)

    -- SET and DIR name only owned pins, OUT an owned pin
    unfoldable pub unowned : Opcode → Engine → Fields → Bool
    unowned Opcode.set e f = nonzero (and_not f.imm24 e.ownership)
    unowned Opcode.dir e f = nonzero (and_not f.imm24 e.ownership)
    unowned Opcode.out_pin e f = not (bit e.ownership f.a)
    unowned _ e f = false

    unfoldable pub checked : Opcode → Engine → Fields → Engine × Accepted
    checked o e f =
        if invalid cfg o f
        then hold (fail e Fault.invalid_operand)
        else if unowned o e f
        then hold (fail e Fault.pin_ownership)
        else execute o e f

    unfoldable pub issue : Engine → Engine × Accepted
    issue e =
        if not (ltb e.pc (length e.program)) || not e.committed
        then hold (fail e Fault.pc_range)
        else (let f = fields (get_or e.program e.pc 0) in
            elim (decode f.op) [
              | none ↦ hold (fail e Fault.invalid_opcode)
              | some o ↦ checked o e f
            ])
