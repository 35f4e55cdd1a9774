-- ===== src/Engine/Fused.antt =====
-- The fused-transfer part of `_step` in test/model/reference.py.
use ttihp_protocol_emulator.Prelude.{
  ℕ, ◌+◌, ◌-◌, ◌*◌, ◌%◌, ◌^◌, Bool, not, ◌&&◌, none, some, to_ℕ, nonzero, ltb, ◌==◌, if◌then◌else◌,
}
use ttihp_protocol_emulator.Prelude.Bits.{bit, differs}
use ttihp_protocol_emulator.Config.{Config}
use ttihp_protocol_emulator.Engine.{Engine, Transfer}
use ttihp_protocol_emulator.Engine.Pads.{drive, next_out, shift_tx, shift_out, shift_in}

-- CPOL, CPHA, MSB first, drive, sample, and whether this is a transition to the active level
abbrev pub cpol : Transfer → Bool
cpol t = bit t.flags 0

abbrev pub cpha : Transfer → Bool
cpha t = bit t.flags 1

abbrev pub msb : Transfer → Bool
msb t = bit t.flags 2

abbrev pub driving : Transfer → Bool
driving t = bit t.flags 3

abbrev pub sampling : Transfer → Bool
sampling t = bit t.flags 4

abbrev pub active : Transfer → Bool
active t = t.transitions % 2 == 0

-- `self._drive(e, clock, int(cpol != active))`
unfoldable pub move_clock : Transfer → Engine → Engine
move_clock t e = drive e e.pins.clock (to_ℕ (differs (cpol t) (active t)))

module _ (cfg : Config) where
  -- `if drive and cpha and active`
  unfoldable pub drive_late : Transfer → Engine → Engine
  drive_late t e =
      if driving t && (cpha t && active t) then shift_out cfg e e.pins.tx (msb t) else e

  -- `if drive and not cpha and not active`: the last bit is not followed by another
  unfoldable pub drive_early : Transfer → Engine → Engine
  drive_early t e =
      let shifted = shift_tx cfg e (msb t) in
      if driving t && (not (cpha t) && not (active t))
      then (if ltb t.transitions (2 * t.bits - 1)
          then drive shifted e.pins.tx (next_out cfg shifted (msb t))
          else shifted)
      else e

  -- `if sample and (not active if cpha else active)`
  unfoldable pub sample : ℕ → Transfer → Engine → Engine
  sample sync2 t e =
      if sampling t && (if cpha t then not (active t) else active t)
      then shift_in cfg sync2 e e.pins.rx (msb t)
      else e

module _ (cfg : Config) (sync2 : ℕ) where
  -- the pins and registers at a transition
  unfoldable pub transition : Engine → Transfer → Engine
  transition e t = sample cfg sync2 t (drive_early cfg t (drive_late cfg t (move_clock t e)))

  -- `remaining` is at least 1 while a transfer is in progress, so `- 1` is exact
  unfoldable pub transfer_step : Engine → Transfer → Engine
  transfer_step e t =
      if nonzero (t.remaining - 1)
      then record e { transfer = some (record t { remaining = t.remaining - 1 }) }
      else (let e' = transition e t in
          if t.transitions + 1 == 2 * t.bits
          then record e' {
            transfer = none;
            pc = e'.pc + 1;
            completed = (e'.completed + 1) % 2 ^ 32;
          }
          else record e' {
            transfer =
                some (record t { remaining = t.half_period; transitions = t.transitions + 1 });
          })
