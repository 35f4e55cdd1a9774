-- ===== src/LineUnit/Counters.antt =====
-- The counters of the two ends of a line, through the end of a data bit and of a stuff bit.
use ttihp_protocol_emulator.Prelude.{
  ℕ, Bool, true, false, ◌≡◌, refl, Option, none, some, arith, if◌then◌else◌,
}
use ttihp_protocol_emulator.Config.{Config}
use ttihp_protocol_emulator.LineUnit.State.{LineState, run_after, run_reset}
use ttihp_protocol_emulator.LineUnit.Transfer.{
  LineTransfer, LineEngine, line_msb, line_crc, feed, count_data, end_stuff, after_stuff,
  after_data,
}

-- the counters that both sides of a line keep
pub record SameCounters (s r : LineState) : Type 0 where
  pub cfg : s.cfg ≡ r.cfg
  pub srun : s.srun ≡ r.srun
  pub slast : s.slast ≡ r.slast
  pub trail : s.trail ≡ r.trail
  pub crc : s.crc ≡ r.crc
  pub preset : s.preset ≡ r.preset

-- the bits that are left, 0 where the transfer is over
abbrev pub left : Option LineTransfer → ℕ
left none = 0
left (some t) = t.remaining

abbrev pub InStep : LineEngine → LineEngine → Type 0
InStep s r = SameCounters s.line r.line × (left s.moving ≡ left r.moving)

count_data-InStep :
    (s r : LineEngine) (ts us : LineTransfer) (n k : ℕ)
    → SameCounters s.line r.line
    → ts.remaining ≡ us.remaining
    → n ≡ k
    → InStep (count_data s ts n) (count_data r us k)
unfolding count_data
count_data-InStep s r ts us n k h e q = ground (arith, h, e, q)

end_stuff-InStep :
    (s r : LineEngine) (trail trail' : Bool)
    → trail ≡ trail'
    → InStep s r
    → InStep (end_stuff trail s) (end_stuff trail' r)
unfolding end_stuff
end_stuff-InStep s r trail trail' p h = ground (arith, h, p)

pub after_stuff-InStep :
    (cfg : Config) (s r : LineEngine) (trail trail' : Bool) (value : ℕ)
    → trail ≡ trail'
    → InStep s r
    → InStep (after_stuff cfg trail value s) (after_stuff cfg trail' value r)
unfolding after_stuff run_reset
after_stuff-InStep cfg s r trail trail' value p (h, e) = end_stuff-InStep _ _ trail trail' p (
  record {
    cfg = h.cfg;
    srun = ground (arith, h.cfg);
    slast = refl;
    trail = h.trail;
    crc = h.crc;
    preset = h.preset;
  },
  e,
)

run_after_same :
    (a b : LineState) (value : ℕ) → SameCounters a b → run_after a value ≡ run_after b value
unfolding run_after
run_after_same a b value h = ground (arith, h)

feed_same :
    (a b : LineState) (value : ℕ) (msb : Bool)
    → SameCounters a b
    → SameCounters (feed a value msb) (feed b value msb)
unfolding feed
feed_same a b value msb h = record {
  cfg = h.cfg;
  srun = h.srun;
  slast = h.slast;
  trail = h.trail;
  crc = rw (h.crc, h.preset) refl;
  preset = h.preset;
}

fed_same :
    (a b : LineState) (value : ℕ) (on on' msb msb' : Bool)
    → SameCounters a b
    → on ≡ on'
    → msb ≡ msb'
    → SameCounters (if on then feed a value msb else a) (if on' then feed b value msb' else b)
fed_same a b value true true msb msb' h p q = rw q (feed_same a b value msb' h)
fed_same a b value false false msb msb' h p q = h
fed_same a b value true false msb msb' h p q = absurd (ground (arith, p))
fed_same a b value false true msb msb' h p q = absurd (ground (arith, p))

counted_same :
    (a b : LineState) (value : ℕ)
    → SameCounters a b
    → SameCounters
        (record a { srun = run_after a value; slast = value })
        (record b { srun = run_after b value; slast = value })
counted_same a b value h = record {
  cfg = h.cfg;
  srun = run_after_same a b value h;
  slast = refl;
  trail = h.trail;
  crc = h.crc;
  preset = h.preset;
}

pub after_data-InStep :
    (cfg : Config) (s r : LineEngine) (ts us : LineTransfer) (value : ℕ)
    → SameCounters s.line r.line
    → ts.remaining ≡ us.remaining
    → line_msb ts ≡ line_msb us
    → line_crc ts ≡ line_crc us
    → InStep (after_data cfg ts value s) (after_data cfg us value r)
unfolding after_data
after_data-InStep cfg s r ts us value h remaining msb crc =
    let fed =
      fed_same s.line r.line value (line_crc ts) (line_crc us) (line_msb ts) (line_msb us) h crc
        msb in
    let a = if line_crc ts then feed s.line value (line_msb ts) else s.line in
    let b = if line_crc us then feed r.line value (line_msb us) else r.line in
    count_data-InStep (record s { line = record a { srun = run_after a value; slast = value } })
      (record r { line = record b { srun = run_after b value; slast = value } }) ts us
      (run_after a value) (run_after b value) (counted_same a b value fed) remaining
      (run_after_same a b value fed)
