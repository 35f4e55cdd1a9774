-- ===== src/LineUnit/Transfer.antt =====
-- `LineTransfer` and `_line_transfer` of test/model/line_unit.py with its helpers. The event counts of
-- `LineReference`, which nothing but the tests read, are left out.
use ttihp_protocol_emulator.Prelude.{
  ℕ, ◌+◌, ◌-◌, ◌*◌, ◌/◌, ◌%◌, ◌^◌, bit_xor, Bool, true, false, not, ◌&&◌, ◌||◌, Option, none, some,
  to_ℕ, nonzero, ◌==◌, if◌then◌else◌,
}
use ttihp_protocol_emulator.Prelude.Bits.{bit}
use ttihp_protocol_emulator.Config.{Config}
use ttihp_protocol_emulator.Engine.{Engine}
use ttihp_protocol_emulator.Engine.Pads.{reg, set_reg, drive, shift_tx}
use ttihp_protocol_emulator.LineUnit.Crc.{preset_polynomial, crc_step}
use ttihp_protocol_emulator.LineUnit.State.{
  LineState, boundary, middle, ticker, code, stuff_en, run_n, run_after, stuff_value, run_reset,
}

pub record LineTransfer : Type 0 where
  pub remaining : ℕ
  pub flags : ℕ

abbrev pub line_msb : LineTransfer → Bool
line_msb t = bit t.flags 2

abbrev pub line_drive : LineTransfer → Bool
line_drive t = bit t.flags 3

abbrev pub line_sample : LineTransfer → Bool
line_sample t = bit t.flags 4

abbrev pub line_crc : LineTransfer → Bool
line_crc t = bit t.flags 6

-- An engine with its line state, and `e.transfer` where that is a `LineTransfer`.
pub record LineEngine : Type 0 where
  pub engine : Engine
  pub line : LineState
  pub moving : Option LineTransfer

-- `line.pair`, `line.arb` and `line.se0_end`
abbrev pub pair : LineState → Bool
pair line = bit line.cfg 7

abbrev pub arb : LineState → Bool
arb line = bit line.cfg 8

abbrev pub se0_end : LineState → Bool
se0_end line = bit line.cfg 9

unfoldable pub finish : Engine → Engine
finish e = record e { pc = e.pc + 1; completed = (e.completed + 1) % 2 ^ 32; blocked = 0 }

unfoldable pub write_pair : LineState → ℕ → Engine → Engine
write_pair line level e =
    let e' = drive e e.pins.tx level in if pair line then drive e' e.pins.clock (1 - level) else e'

unfoldable pub feed : LineState → ℕ → Bool → LineState
feed line value msb = record line {
  crc = crc_step line.crc value (preset_polynomial line.preset msb) msb;
}

-- the transfer ends, with the state as it is
abbrev pub ended : LineEngine → LineEngine
ended le = record le { engine = finish le.engine; moving = none }

unfoldable pub count_data : LineEngine → LineTransfer → ℕ → LineEngine
unfolding finish
count_data le t run_new =
    if t.remaining - 1 == 0
    then (if stuff_en le.line && run_new == run_n le.line
        then record le {
          line = record le.line { trail = true };
          moving = some (record t { remaining = 1 });
        }
        else ended le)
    else record le { moving = some (record t { remaining = t.remaining - 1 }) }

unfoldable pub end_stuff : Bool → LineEngine → LineEngine
unfolding finish
end_stuff trail_before le =
    if trail_before then ended (record le { line = record le.line { trail = false } }) else le

-- whether the bit that is due is a stuff bit
abbrev pub is_stuff : LineState → Bool
is_stuff line = stuff_en line && line.srun == run_n line

module _ (cfg : Config) where
  unfoldable pub tx_bit : Engine → Bool → ℕ
  tx_bit e msb = if msb then reg e 0 / 2 ^ (cfg.width - 1) % 2 else reg e 0 % 2

  unfoldable pub sample_rx : ℕ → Bool → Engine → Engine
  sample_rx value msb e = set_reg e 1 (
      (if msb then reg e 1 * 2 + value else reg e 1 / 2 + value * 2 ^ (cfg.width - 1))
      % 2 ^ cfg.width)

  -- a stuff bit is over: the run starts again with it
  unfoldable pub after_stuff : Bool → ℕ → LineEngine → LineEngine
  unfolding end_stuff run_reset
  after_stuff trail_before value le =
      end_stuff trail_before
        (record le { line = record le.line { srun = run_reset le.line; slast = value } })

  -- a data bit is over: it is fed to the CRC, and counts for the run and the transfer
  unfoldable pub after_data : LineTransfer → ℕ → LineEngine → LineEngine
  unfolding feed run_after count_data
  after_data t value le =
      let line = if line_crc t then feed le.line value (line_msb t) else le.line in
      let run_new = run_after line value in
      count_data (record le { line = record line { srun = run_new; slast = value } }) t run_new

  -- a boundary tick of a transfer that drives
  unfoldable pub drive_bit : LineEngine → LineTransfer → LineEngine
  unfolding tx_bit stuff_value write_pair after_stuff after_data
  drive_bit le t =
      let line = le.line in
      let stuffs = is_stuff line in
      let out = if line.lost then 1 else tx_bit le.engine (line_msb t) in
      let value = if line.lost then 1 else if stuffs then stuff_value line else out in
      let encoded =
        if code line == 1
        then (if nonzero value then line.level else 1 - line.level)
        else if code line == 2
        then 1 - value
        else value in
      let line' = record line {
        level = encoded;
        man = code line == 2;
        cell = value;
        seen = true;
      } in
      let written = write_pair line' encoded le.engine in
      let sent = record le {
        engine = if stuffs then written else shift_tx cfg written (line_msb t);
        line = line';
      } in
      if not (line_sample t)
      then (if stuffs
          then after_stuff line.trail (stuff_value line) sent
          else after_data t out sent)
      else sent

  -- a mid-bit tick of a transfer that samples
  unfoldable pub sample_bit : ℕ → LineEngine → LineTransfer → LineEngine
  unfolding finish stuff_value sample_rx after_stuff after_data
  sample_bit sync2 le t =
      let line = le.line in
      let raw = to_ℕ (bit sync2 le.engine.pins.rx) in
      let pair_raw = bit sync2 le.engine.pins.clock in
      if se0_end line && (pair line && (not (nonzero raw) && not pair_raw))
      then ended
          (record le { line = record line { se0 = true; rem = t.remaining % 64; trail = false } })
      else (let decoded = if code line == 1 then 1 - bit_xor raw line.rx_prev else raw in
          let line' = record line {
            rx_prev = raw;
            lost =
                (arb line && (line_drive t && (nonzero line.cell && not (nonzero raw))))
                || line.lost;
          } in
          if is_stuff line'
          then after_stuff line.trail decoded (record le {
            line = record line' { serr = not (decoded == stuff_value line') || line'.serr };
          })
          else after_data t decoded
              (record le { engine = sample_rx decoded (line_msb t) le.engine; line = line' }))

  unfoldable pub line_transfer : ℕ → LineEngine → LineTransfer → Bool → Bool → LineEngine
  line_transfer sync2 le t boundary middle =
      if boundary && line_drive t
      then drive_bit le t
      else if middle && (line_sample t && (not (line_drive t) || le.line.seen))
      then sample_bit sync2 le t
      else le

  -- A cycle of `_step` in which a running engine that does not wait has a line transfer: the ticker, the second
  -- half of a Manchester bit, and the transfer, with the tick of the state before.
  unfoldable pub transfer_cycle : ℕ → LineEngine → LineTransfer → LineEngine
  unfolding ticker write_pair line_transfer
  transfer_cycle sync2 le t =
      let line = le.line in
      let e = record le.engine { stalled = false } in
      let halved =
        if middle line && line.man
        then record le {
          line = record (ticker line) { level = line.cell; man = false };
          engine = write_pair (ticker line) line.cell e;
        }
        else record le { line = ticker line; engine = e } in
      line_transfer sync2 halved t (boundary line) (middle line)
