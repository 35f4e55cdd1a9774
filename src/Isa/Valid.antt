-- ===== src/Isa/Valid.antt =====
-- The operand checks of `_step` in test/model/reference.py.
use ttihp_protocol_emulator.Prelude.{
  ◌/◌, ◌^◌, Bool, false, not, ◌&&◌, ◌||◌, nonzero, ltb, leb, ◌==◌,
}
use ttihp_protocol_emulator.Config.{Config}
use ttihp_protocol_emulator.Isa.{Opcode, Fields}

-- `invalid`, by opcode
unfoldable pub invalid : Config → Opcode → Fields → Bool
invalid cfg Opcode.nop f = nonzero f.imm24
invalid cfg Opcode.halt f = nonzero f.imm24
invalid cfg Opcode.set f = nonzero (f.imm24 / 2 ^ 8)
invalid cfg Opcode.dir f = nonzero (f.imm24 / 2 ^ 8)
invalid cfg Opcode.wait f = false
invalid cfg Opcode.jmp f = false
invalid cfg Opcode.pull f = nonzero f.imm24
invalid cfg Opcode.push f = ltb 1 f.a || (nonzero f.b || nonzero f.c)
invalid cfg Opcode.out_pin f = ltb 7 f.a || (nonzero f.b || ltb 1 f.c)
invalid cfg Opcode.in_pin f = ltb 7 f.a || (nonzero f.b || ltb 1 f.c)
invalid cfg Opcode.count f = nonzero f.a
invalid cfg Opcode.loop f = false
invalid cfg Opcode.limit f = f.imm24 == 0
invalid cfg Opcode.wait_pin f = ltb 7 f.a || (ltb 1 f.b || nonzero f.c)
invalid cfg Opcode.signal f = nonzero (f.imm24 / 2 ^ cfg.engines)
invalid cfg Opcode.wait_event f = nonzero f.imm24
invalid cfg Opcode.pins f = nonzero (f.imm24 / 2 ^ 9)
invalid cfg Opcode.xfer f =
    not cfg.fused || (not (leb 1 f.a && leb f.a cfg.width) || (f.b == 0 || ltb 31 f.c))
invalid cfg Opcode.mov f = ltb 3 f.a || (ltb 3 f.b || nonzero f.c)
invalid cfg Opcode.load f = ltb 3 f.a
invalid cfg Opcode.add f = ltb 3 f.a || (ltb 3 f.b || nonzero f.c)
invalid cfg Opcode.xor f = ltb 3 f.a || (ltb 3 f.b || nonzero f.c)
invalid cfg Opcode.and f = ltb 3 f.a || (ltb 3 f.b || nonzero f.c)
invalid cfg Opcode.or f = ltb 3 f.a || (ltb 3 f.b || nonzero f.c)
invalid cfg Opcode.shl f = ltb 3 f.a || (nonzero f.b || leb cfg.width f.c)
invalid cfg Opcode.shr f = ltb 3 f.a || (nonzero f.b || leb cfg.width f.c)
invalid cfg Opcode.jz f = ltb 3 f.a
invalid cfg Opcode.not f = ltb 3 f.a || (nonzero f.b || nonzero f.c)
invalid cfg Opcode.time f = ltb 3 f.a || (nonzero f.b || nonzero f.c)
invalid cfg Opcode.fault f = not (ltb 0 f.imm24 && leb f.imm24 255)
