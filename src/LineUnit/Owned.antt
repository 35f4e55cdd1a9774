-- ===== src/LineUnit/Owned.antt =====
-- A line transfer drives owned pins only, from its XFER to its end, the second halves of Manchester bits
-- included.
pub mod Bits
use ttihp_protocol_emulator.Prelude.{
  ℕ, ◌-◌, ◌%◌, ◌^◌, Bool, true, false, not, ◌&&◌, ◌≡◌, ◌≢◌, refl, sym, ap, ◌∙◌, ◌==◌, Option, none,
  some, List, [], ◌∷◌, arith, if◌then◌else◌, inl, inr, Bool-cases, Option-cases, ==_iff, subst,
}
use ttihp_protocol_emulator.Prelude.Bits.{bit, bit-mod}
use ttihp_protocol_emulator.Config.{Config}
use ttihp_protocol_emulator.Engine.{Engine, fail}
use ttihp_protocol_emulator.Engine.Pads.{drive, shift_tx}
use ttihp_protocol_emulator.Engine.Latches.{bit-drive}
use ttihp_protocol_emulator.LineUnit.State.{LineState, boundary, middle, ticker, stuff_value}
use ttihp_protocol_emulator.LineUnit.Transfer.{
  LineTransfer, LineEngine, line_drive, line_sample, line_msb, pair, finish, ended, write_pair,
  feed, count_data, end_stuff, is_stuff, sample_rx, after_stuff, after_data, drive_bit, sample_bit,
  line_transfer, transfer_cycle,
}
use ttihp_protocol_emulator.LineUnit.Instructions.{issue_line}
use ttihp_protocol_emulator.LineUnit.Owned.Bits.{
  SamePads, HasFlags, IsAllowed, Within, true-ne-false, both_true, write_pair-SamePads, line-Within,
  line_transfer-Within,
}

-- the cycles of a transfer, one for each sample of the pins, up to its end
unfoldable pub transfer_cycles : Config → List ℕ → LineEngine → LineEngine
unfolding transfer_cycle
transfer_cycles cfg [] le = le
transfer_cycles cfg (sync2 ∷ samples) le = elim le.moving [
  | none ↦ le
  | some t ↦ transfer_cycles cfg samples (transfer_cycle cfg sync2 le t)
]

module _ (cfg : Config) (p f c : ℕ) (e₀ : Engine) (allowed : IsAllowed p f c e₀) where
  abbrev Kept : LineEngine → Type 0
  Kept = Within cfg p f c e₀ allowed

  ticker-kept : (line : LineState) → ((ticker line).cfg ≡ line.cfg) × ((ticker line).man ≡ line.man)
  unfolding ticker
  ticker-kept line = (ground arith, ground arith)

  half-Within :
      (le : LineEngine)
      → le.line.man ≡ true
      → Kept le
      → Kept (record le {
        line = record (ticker le.line) { level = le.line.cell; man = false };
        engine = write_pair (ticker le.line) le.line.cell le.engine;
      })
  half-Within le half w = record {
    pads =
        write_pair-SamePads cfg p f c e₀ allowed (ticker le.line) le.line.cell le.engine
          ((ticker-kept le.line).0 ∙ w.cfg_kept) (w.halves half) w.pads;
    cfg_kept = (ticker-kept le.line).0 ∙ w.cfg_kept;
    moving = w.moving;
    halves = λ h. absurd (true-ne-false (sym h));
  }

  fresh-Within :
      (le : LineEngine)
      → Kept le
      → Kept (record le { engine = record le.engine { stalled = false } })
  fresh-Within le w = record {
    pads = record {
      level = w.pads.level;
      direction = w.pads.direction;
      ownership = w.pads.ownership;
      open_drain = w.pads.open_drain;
      pins = w.pads.pins;
    };
    cfg_kept = w.cfg_kept;
    moving = w.moving;
    halves = w.halves;
  }

  transfer_cycle-Within :
      (sync2 : ℕ) (le : LineEngine) (t : LineTransfer)
      → t.flags ≡ f
      → Kept le
      → Kept (transfer_cycle cfg sync2 le t)
  unfolding transfer_cycle
  transfer_cycle-Within sync2 le t same w =
      let kept = ticker-kept le.line in
      let w' = fresh-Within le w in
      let le' = record le { engine = record le.engine { stalled = false } } in
      line_transfer-Within cfg p f c e₀ allowed sync2 _ t (boundary le.line) (middle le.line) same
        (elim (Bool-cases (middle le.line && le.line.man)) [
          | inl half ↦ rw half (half-Within le' (both_true (middle le.line) le.line.man half) w')
          | inr whole ↦
              rw whole (line-Within cfg p f c e₀ allowed (ticker le.line) le' kept.0 kept.1 w')
        ])

  transfer_cycles-Within :
      (samples : List ℕ) (le : LineEngine) → Kept le → Kept (transfer_cycles cfg samples le)
  unfolding transfer_cycles
  transfer_cycles-Within [] le w = w
  transfer_cycles-Within (sync2 ∷ samples) le w = elim (Option-cases le.moving) [
    | inl over ↦ rw (transfer_cycles, over) w
    | inr (t, moving) ↦
        rw (transfer_cycles, moving)
          (transfer_cycles-Within samples (transfer_cycle cfg sync2 le t)
            (transfer_cycle-Within sync2 le t (subst (HasFlags f) moving w.moving) w))
  ]

-- what an accepted XFER has tested
module _ (cfg : Config) (le : LineEngine) (a b c p : ℕ) (t : LineTransfer)
    (h : (issue_line cfg le a b c).moving ≡ some t) (free : bit le.engine.ownership p ≡ false)
    (half : le.line.man ≡ true → bit c 3 ≡ true) where
  flag : bit (c % 2 ^ 7) 3 ≡ bit c 3
  flag = bit-mod 7 c 3 ∙ ground arith

  issued-IsAllowed : IsAllowed p (c % 2 ^ 7) le.line.cfg le.engine
  unfolding issue_line fail
  issued-IsAllowed = record {
    apart = free;
    tx = λ drives. ground (arith, h, sym flag ∙ drives);
    clock = λ drives paired. ground (arith, h, sym flag ∙ drives, paired);
  }

  issued-Within :
      Within cfg p (c % 2 ^ 7) le.line.cfg le.engine issued-IsAllowed (issue_line cfg le a b c)
  unfolding issue_line fail
  issued-Within = record {
    pads = ground (arith, h);
    cfg_kept = ground (arith, h);
    moving = ground (arith, h);
    halves = λ man. ground (arith, h, flag, half);
  }

-- A line XFER that is accepted, and that drives if the second half of a Manchester bit is still due,
-- drives owned pins only: in all cycles up to the end of the transfer, whatever is sampled, and with the second halves
-- of Manchester bits, the level of each pin that the engine does not own stays as it was, and so do the directions,
-- the ownership, the open-drain pins and the pin assignment.
pub issue_line_owned :
    (cfg : Config) (le : LineEngine) (a b c p : ℕ) (t : LineTransfer) (samples : List ℕ)
    → (issue_line cfg le a b c).moving ≡ some t
    → bit le.engine.ownership p ≡ false
    → (le.line.man ≡ true → bit c 3 ≡ true)
    → SamePads p le.engine (transfer_cycles cfg samples (issue_line cfg le a b c)).engine
issue_line_owned cfg le a b c p t samples h free half =
    (transfer_cycles-Within cfg p (c % 2 ^ 7) le.line.cfg le.engine
      (issued-IsAllowed cfg le a b c p t h free half) samples (issue_line cfg le a b c)
      (issued-Within cfg le a b c p t h free half)).pads
