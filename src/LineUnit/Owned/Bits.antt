-- ===== src/LineUnit/Owned/Bits.antt =====
-- A bit of a line transfer drives owned pins only.
use ttihp_protocol_emulator.Prelude.{
  ℕ, ◌-◌, ◌%◌, Bool, true, false, not, ◌&&◌, ◌≡◌, ◌≢◌, refl, sym, ap, ◌∙◌, ◌==◌, Option, none, some,
  arith, if◌then◌else◌, inl, inr, Bool-cases, ==_iff,
}
use ttihp_protocol_emulator.Prelude.Bits.{bit}
use ttihp_protocol_emulator.Config.{Config}
use ttihp_protocol_emulator.Engine.{Engine}
use ttihp_protocol_emulator.Engine.Pads.{drive, shift_tx}
use ttihp_protocol_emulator.Engine.Latches.{bit-drive}
use ttihp_protocol_emulator.LineUnit.State.{LineState, stuff_value}
use ttihp_protocol_emulator.LineUnit.Transfer.{
  LineTransfer, LineEngine, line_drive, line_sample, line_msb, pair, finish, ended, write_pair,
  feed, count_data, end_stuff, is_stuff, sample_rx, after_stuff, after_data, drive_bit, sample_bit,
  line_transfer,
}

-- the pads of an engine at the pin `p` are as they were
pub record SamePads (p : ℕ) (e e' : Engine) : Type 0 where
  pub level : bit e'.values p ≡ bit e.values p
  pub direction : e'.direction ≡ e.direction
  pub ownership : e'.ownership ≡ e.ownership
  pub open_drain : e'.open_drain ≡ e.open_drain
  pub pins : e'.pins ≡ e.pins

abbrev pub HasFlags : ℕ → Option LineTransfer → Type 0
HasFlags f none = Unit
HasFlags f (some t) = t.flags ≡ f

-- A transfer with the flags `f` that drives owned pins, and a pin `p` that is not owned.
pub record IsAllowed (p f c : ℕ) (e : Engine) : Type 0 where
  pub apart : bit e.ownership p ≡ false
  pub tx : bit f 3 ≡ true → bit e.ownership e.pins.tx ≡ true
  pub clock : bit f 3 ≡ true → bit c 7 ≡ true → bit e.ownership e.pins.clock ≡ true

pub true-ne-false : true ≢ false
true-ne-false h = cc

other_pin : (own pin p : ℕ) → bit own pin ≡ true → bit own p ≡ false → (pin == p) ≡ false
other_pin own pin p h k = elim (Bool-cases (pin == p)) [
  | inl same ↦ absurd (true-ne-false (sym h ∙ ap (bit own) ((==_iff pin p).0 same) ∙ k))
  | inr apart ↦ apart
]

pub both_true : (a b : Bool) → (a && b) ≡ true → b ≡ true
both_true a b h = ground arith

module _ (cfg : Config) (p f c : ℕ) (e₀ : Engine) (allowed : IsAllowed p f c e₀) where
  -- what every cycle keeps
  pub record Within (le : LineEngine) : Type 0 where
    pub pads : SamePads p e₀ le.engine
    pub cfg_kept : le.line.cfg ≡ c
    pub moving : HasFlags f le.moving
    pub halves : le.line.man ≡ true → bit f 3 ≡ true

  drive-SamePads :
      (e : Engine) (pin value : ℕ)
      → SamePads p e₀ e
      → bit e₀.ownership pin ≡ true
      → SamePads p e₀ (drive e pin value)
  drive-SamePads e pin value s own = record {
    level = bit-drive e pin value p ∙ rw (other_pin e₀.ownership pin p own allowed.apart) s.level;
    direction = unfold drive in s.direction;
    ownership = unfold drive in s.ownership;
    open_drain = unfold drive in s.open_drain;
    pins = unfold drive in s.pins;
  }

  shift_tx-SamePads :
      (e : Engine) (msb : Bool) → SamePads p e₀ e → SamePads p e₀ (shift_tx cfg e msb)
  unfolding shift_tx
  shift_tx-SamePads e msb s = ground (arith, s)

  pub write_pair-SamePads :
      (line : LineState) (level : ℕ) (e : Engine)
      → line.cfg ≡ c
      → bit f 3 ≡ true
      → SamePads p e₀ e
      → SamePads p e₀ (write_pair line level e)
  unfolding write_pair drive
  write_pair-SamePads line level e same drives s =
      let tx : bit e₀.ownership e.pins.tx ≡ true = rw s.pins (allowed.tx drives) in
      let e' = drive e e.pins.tx level in
      let first = drive-SamePads e e.pins.tx level s tx in
      elim (Bool-cases (pair line)) [
        | inl paired ↦
            let clock : bit e₀.ownership e'.pins.clock ≡ true =
              rw first.pins (allowed.clock drives (sym (ap (λ n. bit n 7) same) ∙ paired)) in
            rw paired (drive-SamePads e' e'.pins.clock (1 - level) first clock)
        | inr single ↦ rw single first
      ]

  branches :
      (b b' : Bool) (x y z : LineEngine)
      → Within x
      → Within y
      → Within z
      → Within (if b then if b' then x else y else z)
  branches true true x y z h k l = h
  branches true false x y z h k l = k
  branches false b' x y z h k l = l

  one_of : (b : Bool) (x y : LineEngine) → Within x → Within y → Within (if b then x else y)
  one_of true x y h k = h
  one_of false x y h k = k

  choices :
      (b b' : Bool) (x y z : LineEngine)
      → Within x
      → Within y
      → Within z
      → Within (if b then x else if b' then y else z)
  choices true b' x y z h k l = h
  choices false true x y z h k l = k
  choices false false x y z h k l = l

  -- another line state with the same configuration and no half bit more
  pub line-Within :
      (line : LineState) (le : LineEngine)
      → line.cfg ≡ le.line.cfg
      → line.man ≡ le.line.man
      → Within le
      → Within (record le { line = line })
  line-Within line le same halves w = record {
    pads = w.pads;
    cfg_kept = same ∙ w.cfg_kept;
    moving = w.moving;
    halves = λ h. w.halves (sym halves ∙ h);
  }

  ended-Within : (le : LineEngine) → Within le → Within (ended le)
  unfolding finish
  ended-Within le w = ground (arith, w)

  sample_rx-Within :
      (value : ℕ) (msb : Bool) (le : LineEngine)
      → Within le
      → Within (record le { engine = sample_rx cfg value msb le.engine })
  unfolding sample_rx
  sample_rx-Within value msb le w = ground (arith, w)

  -- the end of a bit
  after_stuff-Within :
      (trail : Bool) (value : ℕ) (le : LineEngine)
      → Within le
      → Within (after_stuff cfg trail value le)
  unfolding after_stuff end_stuff finish
  after_stuff-Within trail value le w = ground (arith, w)

  after_data-Within :
      (t : LineTransfer) (value : ℕ) (le : LineEngine)
      → t.flags ≡ f
      → Within le
      → Within (after_data cfg t value le)
  unfolding after_data feed count_data finish
  after_data-Within t value le same w = ground (arith, w, same)

  -- the bit that goes out, written to the pair
  sent-Within :
      (line : LineState) (level : ℕ) (le : LineEngine) (shifts msb : Bool)
      → line.cfg ≡ c
      → bit f 3 ≡ true
      → Within le
      → Within (record le {
        engine =
            let e = write_pair line level le.engine in if shifts then e else shift_tx cfg e msb;
        line = line;
      })
  unfolding shift_tx
  sent-Within line level le shifts msb same drives w =
      let pads = write_pair-SamePads line level le.engine same drives w.pads in
      record {
        pads = elim (Bool-cases shifts) [
          | inl h ↦ rw h pads
          | inr h ↦ rw h (shift_tx-SamePads (write_pair line level le.engine) msb pads)
        ];
        cfg_kept = same;
        moving = w.moving;
        halves = λ _. drives;
      }

  drive_bit-Within :
      (le : LineEngine) (t : LineTransfer)
      → t.flags ≡ f
      → bit f 3 ≡ true
      → Within le
      → Within (drive_bit cfg le t)
  unfolding drive_bit
  drive_bit-Within le t same drives w =
      branches (not (line_sample t)) (is_stuff le.line) _ _ _
        (after_stuff-Within le.line.trail (stuff_value le.line) _ (
          sent-Within (record le.line { level = _; man = _; cell = _; seen = _ }) _ le
            (is_stuff le.line) (line_msb t) w.cfg_kept drives w))
        (after_data-Within t _ _ same
          (sent-Within _ _ le (is_stuff le.line) (line_msb t) w.cfg_kept drives w))
        (sent-Within _ _ le (is_stuff le.line) (line_msb t) w.cfg_kept drives w)

  sample_bit-Within :
      (sync2 : ℕ) (le : LineEngine) (t : LineTransfer)
      → t.flags ≡ f
      → Within le
      → Within (sample_bit cfg sync2 le t)
  unfolding sample_bit finish sample_rx
  sample_bit-Within sync2 le t same w =
      choices _ _ _ _ _
        (ended-Within _ (
          line-Within (record le.line { se0 = true; rem = t.remaining % 64; trail = false }) le refl
            refl w))
        (after_stuff-Within le.line.trail _ _
          (line-Within (record le.line { rx_prev = _; lost = _; serr = _ }) le refl refl w))
        (after_data-Within t _ _ same (
          line-Within (record le.line { rx_prev = _; lost = _ }) (record le { engine = _ }) refl
            refl (sample_rx-Within _ (line_msb t) le w)))

  pub line_transfer-Within :
      (sync2 : ℕ) (le : LineEngine) (t : LineTransfer) (at_boundary at_middle : Bool)
      → t.flags ≡ f
      → Within le
      → Within (line_transfer cfg sync2 le t at_boundary at_middle)
  unfolding line_transfer
  line_transfer-Within sync2 le t at_boundary at_middle same w =
      elim (Bool-cases (at_boundary && line_drive t)) [
        | inl drives ↦
            let flag : bit f 3 ≡ true =
              ap (λ n. bit n 3) (sym same) ∙ both_true at_boundary (line_drive t) drives in
            rw drives (drive_bit-Within le t same flag w)
        | inr quiet ↦ rw quiet (one_of _ _ le (sample_bit-Within sync2 le t same w) w)
      ]
