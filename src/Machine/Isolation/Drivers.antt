-- ===== src/Machine/Isolation/Drivers.antt =====
-- What stands on a pad: its owner's latches, and nothing of the other engines.
use ttihp_protocol_emulator.Prelude.{
  ℕ, zero, suc, ◌<◌, bit_and, bit_or, Bool, true, false, not, ◌&&◌, ◌||◌, ◌≡◌, refl, ◌∙◌, ap, List,
  [], ◌∷◌, get_or, arith, if◌then◌else◌, Bool-cases, inl, inr,
}
use ttihp_protocol_emulator.Prelude.Bits.{
  bit, and_not, bit-zero, bit-bit_or, bit-bit_and, bit-and_not, bit-mod,
}
use ttihp_protocol_emulator.Config.{Config}
use ttihp_protocol_emulator.Engine.{Engine, fresh}
use ttihp_protocol_emulator.Machine.{reset, engine_at}
use ttihp_protocol_emulator.Machine.Outputs.{is_live, pad_values, pad_enables, outputs}
use ttihp_protocol_emulator.Machine.Reach.{Input, run}
use ttihp_protocol_emulator.Machine.Isolation.Edges.{run-AreApart}

-- what an engine puts on pin `p`: its level and its output enable
abbrev pub level_of : ℕ → Engine → Bool
level_of p e = is_live e && (bit e.values p && (bit e.ownership p && not (bit e.open_drain p)))

abbrev pub enable_of : ℕ → Engine → Bool
enable_of p e =
    is_live e
    && (bit e.direction p && (bit e.ownership p && not (bit e.open_drain p && bit e.values p)))

module _ (p : ℕ) where
  value_step :
      (acc : ℕ) (e : Engine)
      → bit
          (if is_live e
            then bit_or acc (and_not (bit_and e.values e.ownership) e.open_drain)
            else acc)
          p
        ≡ (bit acc p || level_of p e)
  value_step acc e = ground (
    arith,
    bit-bit_or acc (and_not (bit_and e.values e.ownership) e.open_drain) p,
    bit-and_not (bit_and e.values e.ownership) e.open_drain p,
    bit-bit_and e.values e.ownership p,
  )

  enable_step :
      (acc : ℕ) (e : Engine)
      → bit
          (if is_live e
            then bit_or acc
                (and_not (bit_and e.direction e.ownership) (bit_and e.open_drain e.values))
            else acc)
          p
        ≡ (bit acc p || enable_of p e)
  enable_step acc e = ground (
    arith,
    bit-bit_or acc (and_not (bit_and e.direction e.ownership) (bit_and e.open_drain e.values)) p,
    bit-and_not (bit_and e.direction e.ownership) (bit_and e.open_drain e.values) p,
    bit-bit_and e.direction e.ownership p,
    bit-bit_and e.open_drain e.values p,
  )

  -- engines that do not own the pin add nothing
  NoOwner : List Engine → Type 0
  NoOwner es = (j : ℕ) → bit (get_or es j fresh).ownership p ≡ false

  pads_without :
      (acc : ℕ) (es : List Engine)
      → NoOwner es
      → (bit (pad_values acc es) p ≡ bit acc p) × (bit (pad_enables acc es) p ≡ bit acc p)
  unfolding pad_values pad_enables is_live NoOwner
  pads_without acc [] h = (refl, refl)
  pads_without acc (e ∷ es) h =
      let rest = λ (acc' : ℕ). pads_without acc' es (λ j. h (suc j)) in
      (
        (rest _).0 ∙ value_step acc e ∙ ground (arith, h 0),
        (rest _).1 ∙ enable_step acc e ∙ ground (arith, h 0),
      )

  -- only engine `i` may own the pin
  OnlyOwner : ℕ → List Engine → Type 0
  OnlyOwner i es = (j : ℕ) → bit (get_or es j fresh).ownership p ≡ true → j ≡ i

  tail_unowned : (e : Engine) (es : List Engine) → OnlyOwner 0 (e ∷ es) → NoOwner es
  unfolding OnlyOwner NoOwner
  tail_unowned e es h j = elim (Bool-cases (bit (get_or es j fresh).ownership p)) [
    | inr q ↦ q
    | inl q ↦ absurd (omega (arith, h (suc j) q))
  ]

  head_unowned :
      (k : ℕ) (e : Engine) (es : List Engine)
      → OnlyOwner (suc k) (e ∷ es)
      → bit e.ownership p ≡ false
  unfolding OnlyOwner
  head_unowned k e es h = elim (Bool-cases (bit e.ownership p)) [
    | inr q ↦ q
    | inl q ↦ absurd (omega (arith, h 0 q))
  ]

  pads_of :
      (acc : ℕ) (es : List Engine) (i : ℕ)
      → OnlyOwner i es
      → (bit (pad_values acc es) p ≡ (bit acc p || level_of p (get_or es i fresh)))
        × (bit (pad_enables acc es) p ≡ (bit acc p || enable_of p (get_or es i fresh)))
  unfolding pad_values pad_enables is_live
  pads_of acc [] i h = (ground arith, ground arith)
  pads_of acc (e ∷ es) zero h =
      let rest = λ (acc' : ℕ). pads_without acc' es (tail_unowned e es h) in
      ((rest _).0 ∙ value_step acc e, (rest _).1 ∙ enable_step acc e)
  pads_of acc (e ∷ es) (suc k) h =
      let rest =
        λ (acc' : ℕ). pads_of acc' es k (unfold OnlyOwner in λ j q. omega (arith, h (suc j) q)) in
      let off = head_unowned k e es h in
      (
        (rest _).0
            ∙ ap (λ b. b || level_of p (get_or es k fresh)) (value_step acc e)
            ∙ ground (arith, off),
        (rest _).1
            ∙ ap (λ b. b || enable_of p (get_or es k fresh)) (enable_step acc e)
            ∙ ground (arith, off),
      )

-- In every run from reset, a pad that engine `i` owns shows engine `i` alone: its level is that of
-- the latch of a live, not open-drain pin, and it is enabled just when the live engine enables it and
-- does not release it by an open-drain high.
pub run_pad :
    (cfg : Config) (is : List Input) (ui i p : ℕ)
    → p < 8
    → bit (engine_at (run cfg is (reset cfg)) i).ownership p ≡ true
    → let m = run cfg is (reset cfg) in
      (bit (outputs cfg m ui false true).uio_out p ≡ level_of p (engine_at m i))
      × (bit (outputs cfg m ui false true).uio_oe p ≡ enable_of p (engine_at m i))
unfolding outputs
run_pad cfg is ui i p small own =
    let m = run cfg is (reset cfg) in
    let (level, enable) =
      pads_of p 0 m.engines i (unfold OnlyOwner in λ j q. run-AreApart cfg p is j i q own) in
    (
      bit-mod 8 (pad_values 0 m.engines) p ∙ ground (arith, level, bit-zero p),
      bit-mod 8 (pad_enables 0 m.engines) p ∙ ground (arith, enable, bit-zero p),
    )
