-- ===== src/LineUnit/Lockstep.antt =====
-- A driving and a sampling transfer stay in step, stuff bits included.
use ttihp_protocol_emulator.Prelude.{
  ℕ, ◌%◌, Bool, true, false, not, ◌&&◌, ◌||◌, ◌≡◌, refl, ◌∙◌, sym, ap, some, inl, inr, to_ℕ,
  nonzero, ◌==◌, arith, if◌then◌else◌, Bool-cases,
}
use ttihp_protocol_emulator.Prelude.Bits.{bit}
use ttihp_protocol_emulator.Config.{Config}
use ttihp_protocol_emulator.Engine.Pads.{shift_tx}
use ttihp_protocol_emulator.LineUnit.State.{LineState, code, stuff_value}
use ttihp_protocol_emulator.LineUnit.Transfer.{
  LineTransfer, LineEngine, line_msb, line_drive, line_sample, line_crc, is_stuff, se0_end, arb,
  tx_bit, sample_rx, feed, count_data, end_stuff, after_stuff, after_data, drive_bit, sample_bit,
  finish, write_pair, line_transfer,
}
use ttihp_protocol_emulator.LineUnit.Counters.{
  SameCounters, left, InStep, after_stuff-InStep, after_data-InStep,
}

-- what the ends of a bit leave alone
module _ (cfg : Config) (le : LineEngine) (t : LineTransfer) (trail : Bool) (value : ℕ) where
  after_data_line :
      ((after_data cfg t value le).line.level ≡ le.line.level)
      × ((after_data cfg t value le).line.serr ≡ le.line.serr)
      × ((after_data cfg t value le).engine.regs ≡ le.engine.regs)
  unfolding after_data feed count_data finish
  after_data_line = ground arith

  after_stuff_line :
      ((after_stuff cfg trail value le).line.level ≡ le.line.level)
      × ((after_stuff cfg trail value le).line.serr ≡ le.line.serr)
      × ((after_stuff cfg trail value le).engine.regs ≡ le.engine.regs)
  unfolding after_stuff end_stuff finish
  after_stuff_line = ground arith

-- the sender after the bit `value`, before its counters
abbrev sent : Config → LineEngine → LineTransfer → ℕ → LineEngine
sent cfg s ts value =
    let line = record s.line { level = value; man = false; cell = value; seen = true } in
    let written = write_pair line value s.engine in
    record s {
      engine = if is_stuff s.line then written else shift_tx cfg written (line_msb ts);
      line = line;
    }

-- the receiver after the bit `value`, before its counters
abbrev line_of : LineEngine → LineTransfer → ℕ → LineState
line_of r us value = record r.line {
  rx_prev = value;
  lost =
      (arb r.line && (line_drive us && (nonzero r.line.cell && not (nonzero value))))
      || r.line.lost;
}

module _ (cfg : Config) (s : LineEngine) (ts : LineTransfer) (only : line_sample ts ≡ false)
    (nrz : code s.line ≡ 0) (won : s.line.lost ≡ false) where
  drives_stuff :
      is_stuff s.line ≡ true
      → drive_bit cfg s ts
        ≡ after_stuff cfg s.line.trail (stuff_value s.line) (sent cfg s ts (stuff_value s.line))
  unfolding drive_bit
  drives_stuff q = rw (only, nrz, won, q) refl

  drives_data :
      is_stuff s.line ≡ false
      → drive_bit cfg s ts
        ≡ after_data cfg ts
            (tx_bit cfg s.engine (line_msb ts))
            (sent cfg s ts (tx_bit cfg s.engine (line_msb ts)))
  unfolding drive_bit
  drives_data q = rw (only, nrz, won, q) refl

module _ (cfg : Config) (sync2 : ℕ) (r : LineEngine) (us : LineTransfer) (nrz : code r.line ≡ 0)
    (open_end : se0_end r.line ≡ false) where
  samples_stuff :
      (value : ℕ)
      → to_ℕ (bit sync2 r.engine.pins.rx) ≡ value
      → is_stuff r.line ≡ true
      → sample_bit cfg sync2 r us
        ≡ after_stuff cfg r.line.trail value (record r {
          line = record (line_of r us value) {
            serr = not (value == stuff_value r.line) || r.line.serr;
          };
        })
  unfolding sample_bit stuff_value
  samples_stuff value at q = rw (open_end, nrz, q, at) refl

  samples_data :
      (value : ℕ)
      → to_ℕ (bit sync2 r.engine.pins.rx) ≡ value
      → is_stuff r.line ≡ false
      → sample_bit cfg sync2 r us
        ≡ after_data cfg us value (record r {
          engine = sample_rx cfg value (line_msb us) r.engine;
          line = line_of r us value;
        })
  unfolding sample_bit
  samples_data value at q = rw (open_end, nrz, q, at) refl

stuff_value_same : (a b : LineState) → SameCounters a b → stuff_value a ≡ stuff_value b
unfolding stuff_value
stuff_value_same a b h = rw (h.cfg, h.slast) refl

is_stuff_same : (a b : LineState) → SameCounters a b → is_stuff a ≡ is_stuff b
is_stuff_same a b h = rw (h.cfg, h.srun) refl

-- the receiver after a bit of the sender
pub record Received (cfg : Config) (s r : LineEngine) (ts us : LineTransfer) (s' r' : LineEngine)
    : Type 0 where
  pub in_step : InStep s' r'
  pub serr : r'.line.serr ≡ r.line.serr
  pub regs : r'.engine.regs ≡ (
      if is_stuff s.line
      then r.engine.regs
      else (sample_rx cfg (tx_bit cfg s.engine (line_msb ts)) (line_msb us) r.engine).regs)

module _ (cfg : Config) (sync2 : ℕ) (s r : LineEngine) (ts us : LineTransfer)
    (same : SameCounters s.line r.line) (remaining : ts.remaining ≡ us.remaining)
    (moving : s.moving ≡ some ts) (moving' : r.moving ≡ some us) (msb : line_msb ts ≡ line_msb us)
    (crc : line_crc ts ≡ line_crc us) (only : line_sample ts ≡ false) (nrz : code s.line ≡ 0)
    (won : s.line.lost ≡ false) (open_end : se0_end r.line ≡ false)
    (wire : to_ℕ (bit sync2 r.engine.pins.rx) ≡ (drive_bit cfg s ts).line.level) where
  nrz_too : code r.line ≡ 0
  nrz_too = ap (λ n. n % 4) (sym same.cfg) ∙ nrz

  both_left : left s.moving ≡ left r.moving
  both_left = ap left moving ∙ remaining ∙ sym (ap left moving')

  -- what the two sides note besides their counters
  widened :
      (value : ℕ) (lost serr : Bool)
      → SameCounters
          (record s.line { level = value; man = false; cell = value; seen = true })
          (record r.line { rx_prev = value; lost = lost; serr = serr })
  widened value lost serr = record {
    cfg = same.cfg;
    srun = same.srun;
    slast = same.slast;
    trail = same.trail;
    crc = same.crc;
    preset = same.preset;
  }

  stuffed :
      is_stuff s.line ≡ true
      → Received cfg s r ts us (drive_bit cfg s ts) (sample_bit cfg sync2 r us)
  stuffed q =
      let value = stuff_value s.line in
      let put = drives_stuff cfg s ts only nrz won q in
      let sender = sent cfg s ts value in
      let level : (drive_bit cfg s ts).line.level ≡ value =
        ap (λ (x : LineEngine). x.line.level) put
        ∙ (after_stuff_line cfg sender ts s.line.trail value).0 in
      let receiver = record r {
        line = record (line_of r us value) {
          serr = not (value == stuff_value r.line) || r.line.serr;
        };
      } in
      let got : sample_bit cfg sync2 r us ≡ after_stuff cfg r.line.trail value receiver =
        samples_stuff cfg sync2 r us nrz_too open_end value (wire ∙ level)
          (sym (is_stuff_same s.line r.line same) ∙ q) in
      let kept = after_stuff_line cfg receiver us r.line.trail value in
      record {
        in_step =
            rw (put, got)
              (after_stuff-InStep cfg sender receiver s.line.trail r.line.trail value same.trail
                (widened value receiver.line.lost receiver.line.serr, both_left));
        serr =
            ap (λ (x : LineEngine). x.line.serr) got
            ∙ kept.1
            ∙ ground (arith, stuff_value_same s.line r.line same);
        regs = ap (λ (x : LineEngine). x.engine.regs) got ∙ kept.2 ∙ ground (arith, q);
      }

  plain :
      is_stuff s.line ≡ false
      → Received cfg s r ts us (drive_bit cfg s ts) (sample_bit cfg sync2 r us)
  plain q =
      let value = tx_bit cfg s.engine (line_msb ts) in
      let put = drives_data cfg s ts only nrz won q in
      let sender = sent cfg s ts value in
      let level : (drive_bit cfg s ts).line.level ≡ value =
        ap (λ (x : LineEngine). x.line.level) put ∙ (after_data_line cfg sender ts false value).0 in
      let receiver = record r {
        engine = sample_rx cfg value (line_msb us) r.engine;
        line = line_of r us value;
      } in
      let got : sample_bit cfg sync2 r us ≡ after_data cfg us value receiver =
        samples_data cfg sync2 r us nrz_too open_end value (wire ∙ level)
          (sym (is_stuff_same s.line r.line same) ∙ q) in
      let kept = after_data_line cfg receiver us false value in
      record {
        in_step =
            rw (put, got)
              (after_data-InStep cfg sender receiver ts us value
                (widened value receiver.line.lost receiver.line.serr) remaining msb crc);
        serr = ap (λ (x : LineEngine). x.line.serr) got ∙ kept.1;
        regs = ap (λ (x : LineEngine). x.engine.regs) got ∙ kept.2 ∙ ground (arith, q);
      }

  pub lockstep :
      line_drive ts ≡ true
      → line_sample us ≡ true
      → line_drive us ≡ false
      → Received cfg s r ts us
          (line_transfer cfg 0 s ts true false)
          (line_transfer cfg sync2 r us false true)
  unfolding line_transfer
  lockstep driving sampling quiet =
      let both : Received cfg s r ts us (drive_bit cfg s ts) (sample_bit cfg sync2 r us) =
        elim (Bool-cases (is_stuff s.line)) [ inl q ↦ stuffed q | inr q ↦ plain q ] in
      rw (driving, sampling, quiet) both
