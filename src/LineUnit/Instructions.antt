-- ===== src/LineUnit/Instructions.antt =====
-- The line instructions of test/model/line_unit.py: `_line_instruction_body`, `_xfer` and
-- `_classic_transfer`.
use ttihp_protocol_emulator.Prelude.{
  ℕ, ◌+◌, ◌-◌, ◌*◌, ◌/◌, ◌%◌, ◌^◌, bit_and, bit_or, Bool, false, not, ◌&&◌, ◌||◌, Option, none,
  some, to_ℕ, nonzero, ltb, leb, ◌==◌, if◌then◌else◌,
}
use ttihp_protocol_emulator.Prelude.Bits.{bit, and_not}
use ttihp_protocol_emulator.Config.{Config}
use ttihp_protocol_emulator.Engine.{Transfer, fail}
use ttihp_protocol_emulator.Engine.Fault
use ttihp_protocol_emulator.Engine.Pads.{reg, set_reg, drive}
use ttihp_protocol_emulator.Engine.Fused.{
  cpha, msb, driving, sampling, active, move_clock, drive_late, drive_early, sample,
}
use ttihp_protocol_emulator.LineUnit.State.{LineState, code, set_timing}
use ttihp_protocol_emulator.LineUnit.Transfer.{LineEngine, pair, finish, feed, tx_bit}

-- LCFG: `none` is the operand fault
unfoldable pub set_config : LineState → ℕ → Option LineState
set_config line imm24 =
    let init = imm24 / 2 ^ 10 % 2 in
    if nonzero (imm24 / 2 ^ 11) || (bit_and imm24 3 == 3 || bit_and imm24 0x7C == 0x0C)
    then none
    else some (record line {
      cfg = imm24 % 2 ^ 10;
      level = init;
      rx_prev = init;
      slast = init;
      srun = 0;
      rem = 0;
      cell = 0;
      se0 = false;
      serr = false;
      lost = false;
      man = false;
    })

-- the word that LSTAT reads
unfoldable pub line_status : LineState → ℕ → Bool → Bool → ℕ
line_status line level_before tx_available rx_space =
    bit_or
      (bit_or
        (bit_or
          (bit_or
            (bit_or (bit_or (bit_or (to_ℕ line.se0) (to_ℕ line.lost * 2)) (to_ℕ line.serr * 2 ^ 2))
              (to_ℕ tx_available * 2 ^ 3))
            (to_ℕ rx_space * 2 ^ 4))
          (level_before * 2 ^ 5))
        (to_ℕ line.run * 2 ^ 6))
      (line.rem % 64 * 2 ^ 8)

-- a fault of the instruction, and its regular end
abbrev pub faulted : ℕ → LineEngine → LineEngine
faulted fault le = record le { engine = fail le.engine fault; moving = none }

abbrev pub done : LineEngine → LineEngine
done le = record le { engine = finish le.engine }

-- CRC: load from a register, store to one, choose the preset
unfoldable pub crc_instruction : LineEngine → ℕ → ℕ → ℕ → LineEngine
unfolding fail finish
crc_instruction le a b c =
    if c == 1 && (a == 0 && ltb b 4)
    then done (record le { line = record le.line { crc = reg le.engine b % 2 ^ 16 } })
    else if c == 2 && (ltb a 4 && b == 0)
    then done (record le { engine = set_reg le.engine a le.line.crc })
    else if c == 3 && (a == 0 && ltb b 4)
    then done (record le { line = record le.line { preset = b } })
    else faulted Fault.invalid_operand le

module _ (cfg : Config) where
  -- XFER in line mode
  unfoldable pub issue_line : LineEngine → ℕ → ℕ → ℕ → LineEngine
  unfolding fail
  issue_line le a b c =
      let e = le.engine in
      let drives = bit c 3 in
      let valid =
        not (bit c 7)
        && ((leb 1 a && leb a cfg.width)
            && (b == 0
                && (not (nonzero (c % 4))
                    && (le.line.run
                        && (not (code le.line == 2 && bit c 4)
                            && ((not drives || bit e.ownership e.pins.tx)
                                && (not (drives && pair le.line)
                                    || (bit e.ownership e.pins.clock
                                        && not (e.pins.clock == e.pins.tx))))))))) in
      if valid
      then record le {
        moving = some (record { remaining = a; flags = c % 2 ^ 7 });
        line = record le.line { seen = false; trail = false };
      }
      else faulted Fault.invalid_operand le

  -- XFER in classic mode, which stops the ticker
  unfoldable pub issue_classic : LineEngine → ℕ → ℕ → ℕ → LineEngine
  unfolding fail
  issue_classic le a b c =
      let e = le.engine in
      let required = bit_or (2 ^ e.pins.clock) (if bit c 3 then 2 ^ e.pins.tx else 0) in
      if bit c 7 || (not (leb 1 a && leb a cfg.width) || b == 0)
      then faulted Fault.invalid_operand le
      else if nonzero (and_not required e.ownership) || (bit c 3 && e.pins.clock == e.pins.tx)
      then faulted Fault.pin_ownership le
      else (let e' = drive e e.pins.clock (c % 2) in
          let e'' =
            if bit c 3 && not (bit c 1)
            then drive e' e'.pins.tx (tx_bit cfg e' (bit c 2))
            else e' in
          record le {
            engine = record e'' {
              transfer =
                  some (record {
                    bits = a;
                    half_period = b;
                    flags = c;
                    remaining = b;
                    transitions = 0;
                  });
            };
            line = record le.line { run = false };
          })

  -- an instruction of the line unit, from its fields; the opcode is one of 17 and 30 to 33
  unfoldable pub line_instruction : LineEngine → ℕ → Bool → Bool → ℕ → ℕ → ℕ → ℕ → ℕ → LineEngine
  unfolding finish fail
  line_instruction le level_before tx_available rx_space op a b c imm24 =
      if op == 17
      then (if bit c 5 then issue_line le a b c else issue_classic le a b c)
      else if op == 30
      then elim (set_timing le.line imm24) [
        | none ↦ faulted Fault.invalid_operand le
        | some line ↦ done (record le { line = line })
      ]
      else if op == 31
      then elim (set_config le.line imm24) [
        | none ↦ faulted Fault.invalid_operand le
        | some line ↦ done (record le { line = line })
      ]
      else if op == 32
      then crc_instruction le a b c
      else if ltb 3 a || (nonzero b || nonzero c)
      then faulted Fault.invalid_operand le
      else done (record le {
        engine = set_reg le.engine a (line_status le.line level_before tx_available rx_space);
      })

  -- a cycle of a classic transfer, with the feed of the CRC
  unfoldable pub classic_transfer : ℕ → LineEngine → Transfer → LineEngine
  unfolding finish
  classic_transfer sync2 le t =
      if nonzero (t.remaining - 1)
      then record le {
        engine = record le.engine { transfer = some (record t { remaining = t.remaining - 1 }) };
      }
      else (let e = move_clock t le.engine in
          let feeds = bit t.flags 6 in
          let shifting = driving t && (if cpha t then active t else not (active t)) in
          let line =
            if shifting && (feeds && not (sampling t))
            then feed le.line (tx_bit cfg e (msb t)) (msb t)
            else le.line in
          let e' = drive_early cfg t (drive_late cfg t e) in
          let taking = sampling t && (if cpha t then not (active t) else active t) in
          let line' =
            if taking && feeds then feed line (to_ℕ (bit sync2 e'.pins.rx)) (msb t) else line in
          let e'' = sample cfg sync2 t e' in
          if t.transitions + 1 == 2 * t.bits
          then record le { engine = finish (record e'' { transfer = none }); line = line' }
          else record le {
            engine = record e'' {
              transfer =
                  some (record t { remaining = t.half_period; transitions = t.transitions + 1 });
            };
            line = line';
          })
