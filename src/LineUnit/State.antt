-- ===== src/LineUnit/State.antt =====
-- `LineState` of test/model/line_unit.py with its configuration fields, the ticker part of `_step`, the
-- settings of LTIM and the run counters of the stuffing.
use ttihp_protocol_emulator.Prelude.{
  ℕ, ◌+◌, ◌-◌, ◌/◌, ◌%◌, ◌^◌, Bool, false, not, ◌&&◌, Option, none, some, to_ℕ, nonzero, leb, ◌==◌,
  if◌then◌else◌,
}
use ttihp_protocol_emulator.Prelude.Bits.{bit}

pub record LineState : Type 0 where
  pub run : Bool
  pub count : ℕ
  pub period : ℕ
  pub phase : ℕ
  pub frac : ℕ
  pub acc : ℕ
  pub seen : Bool
  pub cfg : ℕ
  pub level : ℕ
  pub rx_prev : ℕ
  pub cell : ℕ
  pub man : Bool
  pub se0 : Bool
  pub rem : ℕ
  pub trail : Bool
  pub srun : ℕ
  pub slast : ℕ
  pub serr : Bool
  pub lost : Bool
  pub crc : ℕ
  pub preset : ℕ

-- `LineState()`
abbrev pub fresh_line : LineState
fresh_line = record {
  run = false;
  count = 0;
  period = 0;
  phase = 0;
  frac = 0;
  acc = 0;
  seen = false;
  cfg = 0;
  level = 0;
  rx_prev = 0;
  cell = 0;
  man = false;
  se0 = false;
  rem = 0;
  trail = false;
  srun = 0;
  slast = 0;
  serr = false;
  lost = false;
  crc = 0;
  preset = 0;
}

-- the LCFG fields
abbrev pub code : LineState → ℕ
code line = line.cfg % 4

abbrev pub stuff_en : LineState → Bool
stuff_en line = bit line.cfg 2

abbrev pub stuff_any : LineState → Bool
stuff_any line = bit line.cfg 3

abbrev pub run_n : LineState → ℕ
run_n line = line.cfg / 2 ^ 4 % 8 + 1

-- whether there is a tick in this cycle, at a bit boundary, in the middle of a bit
abbrev pub tick_now : LineState → Bool
tick_now line = line.run && line.count == 1

abbrev pub boundary : LineState → Bool
boundary line = tick_now line && line.phase == 0

abbrev pub middle : LineState → Bool
middle line = tick_now line && line.phase == 1

-- the ticker in a cycle; the phase is 0 or 1
unfoldable pub ticker : LineState → LineState
ticker line =
    if line.run
    then (if leb line.count 1
        then (let total = line.acc + line.frac in
            record line {
              count = (line.period + total / 2 ^ 8) % 256;
              phase = if line.phase == 0 then 1 else 0;
              acc = total % 256;
            })
        else record line { count = line.count - 1 })
    else line

-- LTIM: `none` is the operand fault
unfoldable pub set_timing : LineState → ℕ → Option LineState
set_timing line imm24 =
    let period = imm24 % 256 in
    let frac = imm24 / 2 ^ 8 % 256 in
    let delay = imm24 / 2 ^ 16 in
    if period == 255 && nonzero frac
    then none
    else some (record line {
      period = period;
      count = if nonzero delay then delay else period;
      frac = frac;
      run = nonzero period;
      acc = 0;
      phase = 0;
    })

-- `_run_after`, `_stuff_value` and `_run_reset`
unfoldable pub run_after : LineState → ℕ → ℕ
run_after line value =
    if stuff_any line
    then (if value == line.slast then (line.srun + 1) % 16 else 1)
    else if nonzero value
    then (line.srun + 1) % 16
    else 0

unfoldable pub stuff_value : LineState → ℕ
stuff_value line = to_ℕ (stuff_any line && not (nonzero line.slast))

unfoldable pub run_reset : LineState → ℕ
run_reset line = if stuff_any line then 1 else 0
