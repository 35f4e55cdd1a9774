-- ===== src/Peers/I2c/Driving.antt =====
-- The flag of the target of host/pe_host/peers.py with which it drives SDA: it changes only in the cycles in
-- which SCL fell.
use ttihp_protocol_emulator.Prelude.{
  ℕ, Bool, true, false, not, ◌&&◌, some, ◌≡◌, ◌≢◌, refl, sym, ap, ◌∙◌, arith, if◌then◌else◌,
  nonzero, ◌⊎◌, inl, inr, Option-cases, subst, Bool-cases,
}
use ttihp_protocol_emulator.Prelude.Bits.{bit}
use ttihp_protocol_emulator.Peers.I2c.{
  State, I2cTarget, on_start, on_stop, on_rise, on_byte, on_fall, edges, drive, step_from, i2c_step,
}

-- the wires of the target, which its steps keep
abbrev pub Wires : I2cTarget → I2cTarget → Type 0
Wires t t' = (t'.sda ≡ t.sda) × (t'.scl ≡ t.scl)

on_rise-kept :
    (s : State) (sda : Bool) (t : I2cTarget)
    → ((on_rise s sda t).sda_low ≡ t.sda_low) × Wires t (on_rise s sda t)
on_rise-kept State.address sda t = (refl, (refl, refl))
on_rise-kept s sda t = (refl, (refl, refl))

on_fall-kept : (s : State) (t : I2cTarget) → Wires t (on_fall s t)
unfolding on_byte
on_fall-kept State.address t = (ground arith, ground arith)
on_fall-kept s t = (ground arith, ground arith)

pub true-ne-false : true ≢ false
true-ne-false h = cc

some_injective : {a b : Bool} → some a ≡ some b → a ≡ b
some_injective h = cc

-- Unless SCL falls, an edge keeps the drive of SDA, or it is a START or a STOP, which release it.
pub edges-kept :
    (cycle : ℕ) (pscl psda scl sda : Bool) (t : I2cTarget)
    → let t' = edges cycle pscl psda scl sda t in
      Wires t t'
      × ((pscl && not scl) ≡ false
          → (t'.sda_low ≡ t.sda_low)
            ⊎ ((t'.sda_low ≡ false) × (pscl ≡ true) × (scl ≡ true) × (psda ≡ not sda)))
unfolding edges on_start on_stop
edges-kept cycle true true true true t = ((refl, refl), λ _. inl refl)
edges-kept cycle true false true false t = ((refl, refl), λ _. inl refl)
edges-kept cycle true true true false t = ((refl, refl), λ _. inr (refl, refl, refl, refl))
edges-kept cycle true false true true t = ((refl, refl), λ _. inr (refl, refl, refl, refl))
edges-kept cycle false psda true sda t =
    let kept = on_rise-kept t.state sda t in (kept.1, λ _. inl kept.0)
edges-kept cycle true psda false sda t = (
  on_fall-kept t.state
      (record t { stretch = if nonzero t.stretch_cycles then t.stretch_cycles else t.stretch }),
  λ h. absurd (true-ne-false h),
)
edges-kept cycle false psda false sda t = ((refl, refl), λ _. inl refl)

-- While the target drives SDA low with SCL high, it has seen SDA low.
abbrev pub Sees : I2cTarget → Type 0
Sees t = t.sda_low ≡ true → t.last_scl ≡ some true → t.last_sda ≡ false

-- The wire is low while the target drives it low.
abbrev pub Wired : I2cTarget → ℕ → Type 0
Wired t pads = t.sda_low ≡ true → bit pads t.sda ≡ false

-- what one step of the target does to its drive
pub record Steady (pads : ℕ) (t t' : I2cTarget) : Type 0 where
  pub sees : Sees t'
  pub sda_kept : t'.sda ≡ t.sda
  pub scl_kept : t'.scl ≡ t.scl
  pub moves : t'.sda_low ≢ t.sda_low → (t.last_scl ≡ some true) × (bit pads t.scl ≡ false)

pub drive-kept :
    (t : I2cTarget)
    → let t' = (drive t).0 in
      (t'.sda_low ≡ t.sda_low)
      × Wires t t'
      × (t'.last_scl ≡ t.last_scl)
      × (t'.last_sda ≡ t.last_sda)
unfolding drive
drive-kept t = (ground arith, (ground arith, ground arith), ground arith, ground arith)

-- what `edges-kept` says of the drive
abbrev Moved : Bool → Bool → Bool → Bool → Bool → Bool → Type 0
Moved low new pscl psda scl sda =
    (pscl && not scl) ≡ false
    → (new ≡ low) ⊎ ((new ≡ false) × (pscl ≡ true) × (scl ≡ true) × (psda ≡ not sda))

-- the drive after a step, from the levels before and now
Moved-sees :
    (low new pscl psda scl sda : Bool)
    → Moved low new pscl psda scl sda
    → (low ≡ true → sda ≡ false)
    → new ≡ true
    → scl ≡ true
    → sda ≡ false
Moved-sees low new pscl psda scl sda moved wired high up =
    let level : (pscl && not scl) ≡ false = ground arith in
    elim (moved level) [
      | inl same ↦ wired (sym same ∙ high)
      | inr released ↦ absurd (true-ne-false (sym high ∙ released.0))
    ]

-- A released drive was not low: the line would have been.
not_released :
    (low new psda sda : Bool)
    → (low ≡ true → psda ≡ false)
    → (low ≡ true → sda ≡ false)
    → new ≢ low
    → new ≡ false
    → psda ≢ not sda
not_released true new psda sda sees wired changed released edge =
    true-ne-false (sym (ap not (wired refl)) ∙ sym edge ∙ sees refl)
not_released false new psda sda sees wired changed released edge = absurd (changed released)

Moved-falls :
    (low new pscl psda scl sda : Bool)
    → Moved low new pscl psda scl sda
    → (low ≡ true → pscl ≡ true → psda ≡ false)
    → (low ≡ true → sda ≡ false)
    → new ≢ low
    → (pscl ≡ true) × (scl ≡ false)
Moved-falls low new pscl psda scl sda moved sees wired changed =
    elim (Bool-cases (pscl && not scl)) [
      | inl fell ↦ (ground arith, ground arith)
      | inr level ↦ absurd (elim (moved level) [
        | inl same ↦ changed same
        | inr (released, was, is, edge) ↦
            not_released low new psda sda (λ l. sees l was) wired changed released edge
      ])
    ]

step_from-Steady :
    (pscl : Bool) (cycle pads : ℕ) (t : I2cTarget)
    → t.last_scl ≡ some pscl
    → Sees t
    → Wired t pads
    → Steady pads t (step_from (some pscl) cycle pads t).0
unfolding step_from
step_from-Steady pscl cycle pads t known sees wired =
    let scl = bit pads t.scl in
    let sda = bit pads t.sda in
    let t' = edges cycle pscl t.last_sda scl sda t in
    let edge = edges-kept cycle pscl t.last_sda scl sda t in
    let end : I2cTarget = record t' { last_scl = some scl; last_sda = sda } in
    let kept = drive-kept end in
    record {
      sees = λ low high.
          kept.3
          ∙ Moved-sees t.sda_low t'.sda_low pscl t.last_sda scl sda edge.1 wired (sym kept.0 ∙ low)
              (some_injective (sym kept.2 ∙ high));
      sda_kept = kept.1.0 ∙ edge.0.0;
      scl_kept = kept.1.1 ∙ edge.0.1;
      moves = λ changed.
          let (was, is) =
            Moved-falls t.sda_low t'.sda_low pscl t.last_sda scl sda edge.1
              (λ low up. sees low (known ∙ ap some up)) wired (λ same. changed (kept.0 ∙ same)) in
          (known ∙ ap some was, is);
    }

pub step-Steady :
    (cycle pads : ℕ) (t : I2cTarget)
    → Sees t
    → Wired t pads
    → Steady pads t (i2c_step cycle pads t).0
unfolding i2c_step
step-Steady cycle pads t sees wired = elim (Option-cases t.last_scl) [
  | inl first ↦
      subst (λ (r : I2cTarget × ℕ × ℕ). Steady pads t r.0)
        (sym (ap (λ o. step_from o cycle pads t) first))
        (unfold step_from in
          (record {
            sees = λ low high. wired low;
            sda_kept = refl;
            scl_kept = refl;
            moves = λ changed. absurd (changed refl);
          }))
  | inr (pscl, known) ↦
      subst (λ (r : I2cTarget × ℕ × ℕ). Steady pads t r.0)
        (sym (ap (λ o. step_from o cycle pads t) known))
        (step_from-Steady pscl cycle pads t known sees wired)
]
