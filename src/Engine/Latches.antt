-- ===== src/Engine/Latches.antt =====
-- The pins that an engine latches are pins that it owns: the drives, the shifts and a transfer in progress.
use ttihp_protocol_emulator.Prelude.{
  ℕ, zero, suc, ◌*◌, ◌%◌, ◌^◌, ◌<◌, Bool, true, ◌&&◌, ◌≡◌, Option, none, some, arith, ◌==◌,
  if◌then◌else◌, inl, inr, ap, ◌∙◌, subst, Bool-cases, not, ltb, to_ℕ, ◌-◌,
}
use native.Mathlib.Nat.{zero-mul}
use ttihp_protocol_emulator.Prelude.Bits.{
  differs, bit, and_not, bit-zero, bit-bit_or, bit-and_not, bit-pow,
}
use ttihp_protocol_emulator.Config.{Config}
use ttihp_protocol_emulator.Engine.{Engine, Transfer}
use ttihp_protocol_emulator.Engine.Pads.{drive, shift_tx, shift_out, shift_in}
use ttihp_protocol_emulator.Engine.Fused.{
  cpol, cpha, active, sampling, msb, driving, move_clock, drive_late, drive_early, sample,
  transition, transfer_step,
}
use ttihp_protocol_emulator.Engine.Frame.{drive-Keeps, shift_tx-Keeps}
use ttihp_protocol_emulator.Engine.Control.{drive_control, drive_late_control, transition_control}

-- The latched bit of each pin after `_drive`.
bit-times_pow : (v pin p : ℕ) → bit (v % 2 * 2 ^ pin) p ≡ (pin == p && v % 2 == 1)
bit-times_pow v pin p = go (v % 2) (omega arith)
  where
    go : (d : ℕ) → d < 2 → bit (d * 2 ^ pin) p ≡ (pin == p && d == 1)
    go zero h = rw zero-mul (bit-zero p ∙ ground arith)
    go (suc zero) h = ap (λ n. bit n p) (omega arith) ∙ bit-pow pin p ∙ ground arith
    go (suc (suc d)) h = absurd (omega arith)

pub bit-drive :
    (e : Engine) (pin value p : ℕ)
    → bit (drive e pin value).values p ≡ (if pin == p then value % 2 == 1 else bit e.values p)
unfolding drive
bit-drive e pin value p = ground (
  arith,
  bit-bit_or (and_not e.values (2 ^ pin)) (value % 2 * 2 ^ pin) p,
  bit-and_not e.values (2 ^ pin) p,
  bit-times_pow value pin p,
  bit-pow pin p,
)

-- The clock pin of a transfer, and its TX pin if it drives one, are owned.
abbrev pub OwnsTransfer : Engine → Option Transfer → Type 0
OwnsTransfer e none = Unit
OwnsTransfer e (some t) =
    (bit e.ownership e.pins.clock ≡ true) × (driving t ≡ true → bit e.ownership e.pins.tx ≡ true)

pub record IsOwner (p : ℕ) (e : Engine) : Type 0 where
  pub values : e.running ≡ true → bit e.values p ≡ true → bit e.ownership p ≡ true
  pub direction : e.running ≡ true → bit e.direction p ≡ true → bit e.ownership p ≡ true
  pub drain : bit e.open_drain p ≡ true → bit e.ownership p ≡ true
  pub transfer : e.running ≡ true → OwnsTransfer e e.transfer

module _ (p : ℕ) (e : Engine) (h : IsOwner p e) where
  pub drive-IsOwner : (pin value : ℕ) → bit e.ownership pin ≡ true → IsOwner p (drive e pin value)
  drive-IsOwner pin value own =
      let same = λ (q : pin ≡ p). (let r : bit e.ownership p ≡ true = rw (← q) own in r) in
      ground
        (arith, bit-drive e pin value p, drive-Keeps e pin value, drive_control e pin value, same)

  pub shift_tx-IsOwner : (cfg : Config) (msb : Bool) → IsOwner p (shift_tx cfg e msb)
  unfolding shift_tx
  shift_tx-IsOwner cfg msb = ground arith

  pub shift_in-IsOwner :
      (cfg : Config) (sync2 pin : ℕ) (msb : Bool) → IsOwner p (shift_in cfg sync2 e pin msb)
  unfolding shift_in
  shift_in-IsOwner cfg sync2 pin msb = ground arith

module _ (cfg : Config) (p : ℕ) (t : Transfer) where
  drive_late-IsOwner :
      (e : Engine)
      → IsOwner p e
      → (driving t ≡ true → bit e.ownership e.pins.tx ≡ true)
      → IsOwner p (drive_late cfg t e)
  unfolding drive_late shift_out
  drive_late-IsOwner e h own = elim (Bool-cases (driving t && (cpha t && active t))) [
    | inl q ↦ rw q (
        shift_tx-IsOwner p _ (drive-IsOwner p e h e.pins.tx _ (own (ground (arith, q)))) cfg
          (msb t))
    | inr q ↦ rw q h
  ]

  drive_early-IsOwner :
      (e : Engine)
      → IsOwner p e
      → (driving t ≡ true → bit e.ownership e.pins.tx ≡ true)
      → IsOwner p (drive_early cfg t e)
  unfolding drive_early
  drive_early-IsOwner e h own =
      let shifted = shift_tx cfg e (msb t) in
      let h' : IsOwner p shifted = shift_tx-IsOwner p e h cfg (msb t) in
      elim (Bool-cases (driving t && (not (cpha t) && not (active t)))) [
        | inr q ↦ rw q h
        | inl q ↦ elim (Bool-cases (ltb t.transitions (2 * t.bits - 1))) [
          | inr last ↦ rw (q, last) h'
          | inl more ↦
              rw (q, more)
                (drive-IsOwner p shifted h' e.pins.tx _
                  (rw (shift_tx-Keeps cfg e (msb t)).ownership (own (ground (arith, q)))))
        ]
      ]

  sample-IsOwner : (sync2 : ℕ) (e : Engine) → IsOwner p e → IsOwner p (sample cfg sync2 t e)
  unfolding sample
  sample-IsOwner sync2 e h =
      elim (Bool-cases (sampling t && (if cpha t then not (active t) else active t))) [
        | inl q ↦ rw q (shift_in-IsOwner p e h cfg sync2 e.pins.rx (msb t))
        | inr q ↦ rw q h
      ]

module _ (cfg : Config) (sync2 p : ℕ) where
  transition-IsOwner :
      (e : Engine) (t : Transfer)
      → IsOwner p e
      → OwnsTransfer e (some t)
      → IsOwner p (transition cfg sync2 e t)
  unfolding transition move_clock
  transition-IsOwner e t h (clock_owned, tx_owned) =
      let clocked = drive e e.pins.clock (to_ℕ (differs (cpol t) (active t))) in
      let same = drive_control e e.pins.clock (to_ℕ (differs (cpol t) (active t))) in
      let late = drive_late cfg t clocked in
      let same' = drive_late_control cfg sync2 t clocked in
      let h₁ : IsOwner p clocked = drive-IsOwner p e h e.pins.clock _ clock_owned in
      let own : driving t ≡ true → bit clocked.ownership clocked.pins.tx ≡ true =
        λ q. rw (same.ownership, same.pins) (tx_owned q) in
      let own' : driving t ≡ true → bit late.ownership late.pins.tx ≡ true =
        λ q. rw (same'.ownership, same'.pins) (own q) in
      sample-IsOwner cfg p t sync2 _
        (drive_early-IsOwner cfg p t late (drive_late-IsOwner cfg p t clocked h₁ own) own')

  pub transfer_step-IsOwner :
      (e : Engine) (t : Transfer)
      → e.running ≡ true
      → e.transfer ≡ some t
      → IsOwner p e
      → IsOwner p (transfer_step cfg sync2 e t)
  unfolding transfer_step
  transfer_step-IsOwner e t r q h =
      let owns : OwnsTransfer e (some t) = subst (OwnsTransfer e) q (h.transfer r) in
      ground
        (arith, owns.0, owns.1, transition-IsOwner e t h owns, transition_control cfg sync2 e t)
