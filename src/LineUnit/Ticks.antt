-- ===== src/LineUnit/Ticks.antt =====
-- When the ticker ticks: the k-th tick after a delay, with the fraction carried exactly.
use ttihp_protocol_emulator.Prelude.{
  ℕ, zero, suc, ◌+◌, ◌*◌, ◌/◌, ◌%◌, ◌^◌, ◌≤◌, true, false, ◌≡◌, arith, to_ℕ, ◌⊎◌, some, nonzero,
  if◌then◌else◌,
}
use native.Mathlib.Nat.{suc-mul}
use ttihp_protocol_emulator.LineUnit.State.{LineState, tick_now, ticker, set_timing}

-- the line state after `n` cycles of the ticker, and the number of ticks in them
unfoldable pub elapse : ℕ → LineState → LineState
elapse zero line = line
elapse (suc n) line = elapse n (ticker line)

unfoldable pub ticks : ℕ → LineState → ℕ
ticks zero line = 0
ticks (suc n) line = to_ℕ (tick_now line) + ticks n (ticker line)

-- A running ticker with half-period `p`, fraction `q` and accumulator `a`, whose next tick is in the `c`-th
-- cycle from here, and whose reloads fit in eight bits.
pub record IsTicking (p q a c : ℕ) (line : LineState) : Type 0 where
  pub run : line.run ≡ true
  pub due : 1 ≤ c
  pub count : line.count ≡ c
  pub period : line.period ≡ p
  pub frac : line.frac ≡ q
  pub acc : line.acc ≡ a
  pub moves : 1 ≤ p
  pub part : q ≤ 255
  pub rest : a ≤ 255
  pub fits : (p ≤ 254) ⊎ ((p ≡ 255) × (q ≡ 0) × (a ≡ 0))

module _ (p q : ℕ) where
  count_down :
      (a c : ℕ) (line : LineState)
      → IsTicking p q a (suc (suc c)) line
      → (tick_now line ≡ false) × IsTicking p q a (suc c) (ticker line)
  unfolding ticker
  count_down a c line h = ground arith

  reload :
      (a : ℕ) (line : LineState)
      → IsTicking p q a 1 line
      → (tick_now line ≡ true) × IsTicking p q ((a + q) % 256) (p + (a + q) / 256) (ticker line)
  unfolding ticker
  reload a line h = ground arith

  -- The cycle in which the tick after `k` others comes, counted from 1.
  abbrev pub tick_cycle : ℕ → ℕ → ℕ → ℕ
  tick_cycle a c k = c + k * p + (a + k * q) / 256

  next_cycle :
      (a k : ℕ)
      → a ≤ 255
      → tick_cycle a 1 (suc k) ≡ suc (tick_cycle ((a + q) % 256) (p + (a + q) / 256) k)
  next_cycle a k small = grind (arith, suc-mul)

  -- The tick after `k` others comes exactly in its cycle: in the `n` cycles before there were `k` ticks, and
  -- the next cycle has one. The fraction is carried without loss: `k` periods take `k * q / 256` cycles more.
  pub ticks_exactly :
      (n k a c : ℕ) (line : LineState)
      → IsTicking p q a c line
      → n + 1 ≡ tick_cycle a c k
      → (ticks n line ≡ k) × (tick_now (elapse n line) ≡ true)
  unfolding ticks elapse
  ticks_exactly zero zero a c line h e = ground (arith, h)
  ticks_exactly zero (suc k) a c line h e = absurd (grind (arith, suc-mul, h.due, h.moves))
  ticks_exactly (suc n) zero a zero line h e = absurd (omega (arith, h.due))
  ticks_exactly (suc n) zero a (suc zero) line h e = absurd (omega (arith, h.rest))
  ticks_exactly (suc n) (suc k) a zero line h e = absurd (omega (arith, h.due))
  ticks_exactly (suc n) (suc k) a (suc zero) line h e =
      let (now, h') = reload a line h in
      let (before, last) =
        ticks_exactly n k ((a + q) % 256) (p + (a + q) / 256) (ticker line) h'
          (omega (arith, next_cycle a k h.rest)) in
      (ground (arith, now, before), last)
  ticks_exactly (suc n) k a (suc (suc c)) line h e =
      let (now, h') = count_down a c line h in
      let (before, last) = ticks_exactly n k a (suc c) (ticker line) h' (omega arith) in
      (ground (arith, now, before), last)

-- LTIM starts the ticker on its delay, or on its period where the delay is 0.
set_timing-IsTicking :
    (line line' : LineState) (period frac delay : ℕ)
    → period ≤ 255
    → frac ≤ 255
    → 1 ≤ period
    → set_timing line (delay * 2 ^ 16 + frac * 2 ^ 8 + period) ≡ some line'
    → IsTicking period frac 0 (if nonzero delay then delay else period) line'
unfolding set_timing
set_timing-IsTicking line line' period frac delay small small' moves set =
    let p : (delay * 2 ^ 16 + frac * 2 ^ 8 + period) % 256 ≡ period = omega arith in
    let q : (delay * 2 ^ 16 + frac * 2 ^ 8 + period) / 2 ^ 8 % 256 ≡ frac = omega arith in
    let d : (delay * 2 ^ 16 + frac * 2 ^ 8 + period) / 2 ^ 16 ≡ delay = omega arith in
    ground (arith, set, p, q, d)

-- After an accepted LTIM with period, fraction and delay, the tick number `k` (from 0) comes in the
-- cycle `first + k * period + k * frac / 256`, counted from 1, where `first` is the delay, or the
-- period for a delay of 0: in the `n` cycles before there were exactly `k` ticks.
pub ltim_ticks :
    (line line' : LineState) (period frac delay n k : ℕ)
    → period ≤ 255
    → frac ≤ 255
    → 1 ≤ period
    → set_timing line (delay * 2 ^ 16 + frac * 2 ^ 8 + period) ≡ some line'
    → n + 1 ≡ (if nonzero delay then delay else period) + k * period + k * frac / 256
    → (ticks n line' ≡ k) × (tick_now (elapse n line') ≡ true)
ltim_ticks line line' period frac delay n k small small' moves set e =
    ticks_exactly period frac n k 0 (if nonzero delay then delay else period) line'
      (set_timing-IsTicking line line' period frac delay small small' moves set) (omega arith)
