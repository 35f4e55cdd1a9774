-- ===== src/Peers/I2c/Masks.antt =====
-- The mask that a step of the target of host/pe_host/peers.py returns: SDA changes, and a hold of SCL begins,
-- only in the cycles in which SCL fell.
use ttihp_protocol_emulator.Prelude.{
  ℕ, ◌-◌, ◌^◌, Bool, true, false, not, ◌&&◌, none, some, List, ◌≡◌, ◌≢◌, refl, sym, ap, ◌∙◌, arith,
  if◌then◌else◌, nonzero, ◌⊎◌, inl, inr, Option-cases, subst, Bool-cases,
}
use ttihp_protocol_emulator.Prelude.Bits.{bit, bit-bit_or, bit-pow, bit-zero}
use ttihp_protocol_emulator.Peers.I2c.{
  State, I2cTarget, new_target, on_start, on_stop, on_rise, edges, drive, step_from, i2c_step,
}
use ttihp_protocol_emulator.Peers.I2c.Driving.{
  edges-kept, true-ne-false, Sees, drive-kept, step-Steady,
}

on_rise_stretch : (s : State) (sda : Bool) (t : I2cTarget) → (on_rise s sda t).stretch ≡ t.stretch
on_rise_stretch State.address sda t = refl
on_rise_stretch s sda t = refl

-- Unless SCL falls, the edges of a cycle leave the stretch as it is.
edges_stretch :
    (cycle : ℕ) (pscl psda scl sda : Bool) (t : I2cTarget)
    → (pscl && not scl) ≡ false
    → (edges cycle pscl psda scl sda t).stretch ≡ t.stretch
unfolding edges on_start on_stop
edges_stretch cycle true true true true t level = refl
edges_stretch cycle true false true false t level = refl
edges_stretch cycle true true true false t level = refl
edges_stretch cycle true false true true t level = refl
edges_stretch cycle false psda true sda t level = on_rise_stretch t.state sda t
edges_stretch cycle true psda false sda t level = cc
edges_stretch cycle false psda false sda t level = refl

-- the mask of a drive, on two pins that differ
drive-mask :
    (t : I2cTarget)
    → t.scl ≢ t.sda
    → let (t', en) = drive t in
      (bit en t.sda ≡ t.sda_low) × (bit en t.scl ≡ nonzero t.stretch) × (t'.stretch ≡ t.stretch - 1)
unfolding drive
drive-mask t apart = ground (
  arith,
  bit-bit_or (if t.sda_low then 2 ^ t.sda else 0) (2 ^ t.scl) t.sda,
  bit-bit_or (if t.sda_low then 2 ^ t.sda else 0) (2 ^ t.scl) t.scl,
  bit-pow t.sda t.sda,
  bit-pow t.sda t.scl,
  bit-pow t.scl t.scl,
  bit-pow t.scl t.sda,
  bit-zero t.sda,
  bit-zero t.scl,
)

-- A target on a bus with the mask that it drives: new and driving nothing, or after a cycle in which SDA was low
-- if the mask of the cycle before has it.
pub data Bus : I2cTarget → ℕ → Type 0 where
  fresh :
      (addr scl sda : ℕ) (served : List ℕ) (stretch : ℕ) (nacks : List ℕ)
      → scl ≢ sda
      → Bus (new_target addr scl sda served stretch nacks) 0
  after :
      {t : I2cTarget} {en : ℕ} (cycle pads : ℕ)
      → Bus t en
      → (bit en t.sda ≡ true → bit pads t.sda ≡ false)
      → Bus (i2c_step cycle pads t).0 (i2c_step cycle pads t).1

fell_from : (pscl scl : Bool) → (pscl && not scl) ≡ true → (pscl ≡ true) × (scl ≡ false)
fell_from pscl scl h = (ground arith, ground arith)

some-ne-none : {b : Bool} → some b ≢ none
some-ne-none h = cc

-- what is known of a target on a bus
record Holds (t : I2cTarget) (en : ℕ) : Type 0 where
  apart : t.scl ≢ t.sda
  mask : bit en t.sda ≡ t.sda_low
  held : bit en t.scl ≡ false → t.stretch ≡ 0
  first : t.last_scl ≡ none → (t.sda_low ≡ false) × (t.stretch ≡ 0)
  sees : Sees t

-- what the mask of a step says of the step
record Masks (pads : ℕ) (t : I2cTarget) (r : I2cTarget × ℕ × ℕ) : Type 0 where
  mask : bit r.1 r.0.sda ≡ r.0.sda_low
  held : bit r.1 r.0.scl ≡ false → r.0.stretch ≡ 0
  known : r.0.last_scl ≡ some (bit pads t.scl)
  holds :
      bit r.1 r.0.scl ≡ true
      → (nonzero t.stretch ≡ true) ⊎ ((t.last_scl ≡ some true) × (bit pads t.scl ≡ false))
  low : r.2 ≡ 0

step_from-Masks :
    (pscl : Bool) (cycle pads : ℕ) (t : I2cTarget)
    → t.last_scl ≡ some pscl
    → t.scl ≢ t.sda
    → Masks pads t (step_from (some pscl) cycle pads t)
unfolding step_from
step_from-Masks pscl cycle pads t known apart =
    let scl = bit pads t.scl in
    let sda = bit pads t.sda in
    let t' = edges cycle pscl t.last_sda scl sda t in
    let edge = edges-kept cycle pscl t.last_sda scl sda t in
    let end : I2cTarget = record t' { last_scl = some scl; last_sda = sda } in
    let kept = drive-kept end in
    let masked = drive-mask end (λ e. apart (sym edge.0.1 ∙ e ∙ edge.0.0)) in
    record {
      mask = ap (bit (drive end).1) kept.1.0 ∙ masked.0 ∙ sym kept.0;
      held = λ free. ground (arith, ap (bit (drive end).1) kept.1.1, masked.1, masked.2, free);
      known = kept.2;
      holds = λ high. elim (Bool-cases (pscl && not scl)) [
        | inl fell ↦ inr (known ∙ ap some (fell_from pscl scl fell).0, (fell_from pscl scl fell).1)
        | inr level ↦ inl (
            ap nonzero (sym (edges_stretch cycle pscl t.last_sda scl sda t level))
            ∙ sym masked.1
            ∙ sym (ap (bit (drive end).1) kept.1.1)
            ∙ high)
      ];
      low = refl;
    }

step-Masks :
    (cycle pads : ℕ) (t : I2cTarget)
    → t.scl ≢ t.sda
    → (t.last_scl ≡ none → (t.sda_low ≡ false) × (t.stretch ≡ 0))
    → Masks pads t (i2c_step cycle pads t)
unfolding i2c_step
step-Masks cycle pads t apart first = elim (Option-cases t.last_scl) [
  | inl new ↦
      subst (λ (r : I2cTarget × ℕ × ℕ). Masks pads t r)
        (sym (ap (λ o. step_from o cycle pads t) new))
        (unfold step_from in
          (record {
            mask = bit-zero t.sda ∙ sym (first new).0;
            held = λ free. (first new).1;
            known = refl;
            holds = λ high. absurd (true-ne-false (sym high ∙ bit-zero t.scl));
            low = refl;
          }))
  | inr (pscl, known) ↦
      subst (λ (r : I2cTarget × ℕ × ℕ). Masks pads t r)
        (sym (ap (λ o. step_from o cycle pads t) known))
        (step_from-Masks pscl cycle pads t known apart)
]

Bus-Holds : {t : I2cTarget} {en : ℕ} → Bus t en → Holds t en
Bus-Holds (fresh addr scl sda served stretch nacks apart) = record {
  apart = apart;
  mask = bit-zero sda;
  held = λ free. refl;
  first = λ new. (refl, refl);
  sees = λ low high. absurd (true-ne-false (sym low));
}
Bus-Holds (after {t} {en} cycle pads b wired) =
    let h = Bus-Holds b in
    let steady = step-Steady cycle pads t h.sees (λ low. wired (h.mask ∙ low)) in
    let masks = step-Masks cycle pads t h.apart h.first in
    record {
      apart = λ e. h.apart (sym steady.scl_kept ∙ e ∙ steady.sda_kept);
      mask = masks.mask;
      held = masks.held;
      first = λ new. absurd (some-ne-none (sym masks.known ∙ new));
      sees = steady.sees;
    }

-- From a new target on, on any two different pins, on every bus whose SDA is low in each cycle after one in
-- which the target drove it, and in every cycle, for the mask that the step returns: where it drives SDA otherwise
-- than the mask of the cycle before, or begins to hold SCL, SCL was high in the cycle before and is low in this one;
-- and it drives only low.
pub i2c_step-moves :
    {t : I2cTarget} {en : ℕ} (cycle pads : ℕ)
    → Bus t en
    → (bit en t.sda ≡ true → bit pads t.sda ≡ false)
    → let r = i2c_step cycle pads t in
      (bit r.1 t.sda ≢ bit en t.sda → (t.last_scl ≡ some true) × (bit pads t.scl ≡ false))
      × (bit en t.scl ≡ false
          → bit r.1 t.scl ≡ true
          → (t.last_scl ≡ some true) × (bit pads t.scl ≡ false))
      × (r.2 ≡ 0)
i2c_step-moves {t} {en} cycle pads b wired =
    let r = i2c_step cycle pads t in
    let h = Bus-Holds b in
    let steady = step-Steady cycle pads t h.sees (λ low. wired (h.mask ∙ low)) in
    let masks = step-Masks cycle pads t h.apart h.first in
    let same_sda : bit r.1 t.sda ≡ r.0.sda_low = sym (ap (bit r.1) steady.sda_kept) ∙ masks.mask in
    (
      λ changed. steady.moves (λ same. changed (same_sda ∙ same ∙ sym h.mask)),
      λ free high. elim (masks.holds (ap (bit r.1) steady.scl_kept ∙ high)) [
        | inl stretching ↦ absurd (true-ne-false (sym stretching ∙ ap nonzero (h.held free)))
        | inr fell ↦ fell
      ],
      masks.low,
    )
