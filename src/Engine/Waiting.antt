-- ===== src/Engine/Waiting.antt =====
-- WAITPIN, the bounded wait for a pin level: it ends in time or faults after LIMIT samples.
use ttihp_protocol_emulator.Prelude.{
  ℕ, suc, ◌+◌, ◌<◌, true, false, ◌≡◌, ◌≢◌, none, some, List, [], ◌∷◌, arith, length, get_or, to_ℕ,
  ◌∙◌, refl, subst,
}
use native.Mathlib.Nat.{add-zero}
use ttihp_protocol_emulator.Prelude.Bits.{bit}
use ttihp_protocol_emulator.Config.{Config}
use ttihp_protocol_emulator.Isa.{Opcode, Fields, fields, decode}
use ttihp_protocol_emulator.Isa.Valid.{invalid}
use ttihp_protocol_emulator.Engine.{Engine}
use ttihp_protocol_emulator.Engine.Fault
use ttihp_protocol_emulator.Engine.Issue.{unowned, execute, checked, issue}
use ttihp_protocol_emulator.Engine.Step.{step}
use ttihp_protocol_emulator.Engine.Cycles.{Sample, step_on, cycles}

-- An engine at a valid WAITPIN `f`, with `n` unsuccessful samples so far, below its limit.
pub record IsAtWaitPin (cfg : Config) (f : Fields) (n bound : ℕ) (e : Engine) : Type 0 where
  pub running : e.running ≡ true
  pub wait : e.wait ≡ 0
  pub transfer : e.transfer ≡ none
  pub committed : e.committed ≡ true
  pub inside : e.pc < length e.program
  pub word : fields (get_or e.program e.pc 0) ≡ f
  pub op : decode f.op ≡ some Opcode.wait_pin
  pub valid : invalid cfg Opcode.wait_pin f ≡ false
  pub blocked : e.blocked ≡ n
  pub limit : e.limit ≡ bound
  pub below : n < bound

-- the pin is not at the level that is waited for
abbrev pub Misses : Fields → Sample → Type 0
Misses f s = to_ℕ (bit s.sync2 f.a) ≢ f.b

abbrev pub AllMiss : Fields → List Sample → Type 0
AllMiss f [] = Unit
AllMiss f (s ∷ ss) = Misses f s × AllMiss f ss

module _ (cfg : Config) (f : Fields) where
  wait_step :
      (s : Sample) (e : Engine) (n bound : ℕ)
      → IsAtWaitPin cfg f n bound e
      → step_on cfg s e
        ≡ (execute cfg s.sync2 s.timestamp s.tx_available s.rx_space Opcode.wait_pin
            (record e { stalled = false })
            f).0
  unfolding step issue checked unowned
  wait_step s e n bound h = ground arith

  miss_again :
      (s : Sample) (e : Engine) (n bound : ℕ)
      → IsAtWaitPin cfg f n bound e
      → Misses f s
      → n + 1 < bound
      → IsAtWaitPin cfg f (n + 1) bound (step_on cfg s e) × ((step_on cfg s e).pc ≡ e.pc)
  unfolding execute
  miss_again s e n bound h m q = rw (wait_step s e n bound h) (ground arith)

  miss_fault :
      (s : Sample) (e : Engine) (n bound : ℕ)
      → IsAtWaitPin cfg f n bound e
      → Misses f s
      → n + 1 < bound
      → (step_on cfg s e).fault ≡ e.fault
  unfolding execute
  miss_fault s e n bound h m q = rw (wait_step s e n bound h) (ground arith)

  last_miss :
      (s : Sample) (e : Engine) (n bound : ℕ)
      → IsAtWaitPin cfg f n bound e
      → Misses f s
      → n + 1 ≡ bound
      → let e' = step_on cfg s e in
        (e'.fault ≡ Fault.timeout) × (e'.running ≡ false) × (e'.direction ≡ 0) × (e'.pc ≡ e.pc)
  unfolding execute
  last_miss s e n bound h m q = rw (wait_step s e n bound h) (ground arith)

  -- While the pin misses its level in fewer samples than are left to the limit, the engine stays at the
  -- WAITPIN, running, and has counted every one of them.
  pub waitpin_waits :
      (ss : List Sample) (e : Engine) (n bound : ℕ)
      → IsAtWaitPin cfg f n bound e
      → AllMiss f ss
      → n + length ss < bound
      → IsAtWaitPin cfg f (n + length ss) bound (cycles cfg ss e) × ((cycles cfg ss e).pc ≡ e.pc)
  unfolding cycles
  waitpin_waits [] e n bound h m q = rw add-zero (h, refl)
  waitpin_waits (s ∷ ss) e n bound h m q =
      let (h', pc) = miss_again s e n bound h m.0 (omega arith) in
      let (waits, same) = waitpin_waits ss (step_on cfg s e) (n + 1) bound h' m.1 (omega arith) in
      let regroup : n + 1 + length ss ≡ n + suc (length ss) = omega arith in
      (
        subst (λ k. IsAtWaitPin cfg f k bound (cycles cfg ss (step_on cfg s e))) regroup waits,
        same ∙ pc,
      )

  still_unfaulted :
      (ss : List Sample) (e : Engine) (n bound : ℕ)
      → IsAtWaitPin cfg f n bound e
      → AllMiss f ss
      → n + length ss < bound
      → (cycles cfg ss e).fault ≡ e.fault
  unfolding cycles
  still_unfaulted [] e n bound h m q = refl
  still_unfaulted (s ∷ ss) e n bound h m q =
      let (h', pc) = miss_again s e n bound h m.0 (omega arith) in
      still_unfaulted ss (step_on cfg s e) (n + 1) bound h' m.1 (omega arith)
      ∙ miss_fault s e n bound h m.0 (omega arith)

  -- `last_miss` after all the samples before
  missed_out :
      (ss : List Sample) (e : Engine) (n bound : ℕ)
      → IsAtWaitPin cfg f n bound e
      → AllMiss f ss
      → n + length ss ≡ bound
      → let e' = cycles cfg ss e in
        (e'.fault ≡ Fault.timeout) × (e'.running ≡ false) × (e'.direction ≡ 0) × (e'.pc ≡ e.pc)
  unfolding cycles
  missed_out [] e n bound h m q = absurd (omega (arith, h.below))
  missed_out (s ∷ []) e n bound h m q = last_miss s e n bound h m.0 (omega arith)
  missed_out (s ∷ s' ∷ ss) e n bound h m q =
      let (h', pc) = miss_again s e n bound h m.0 (omega arith) in
      let (fault, stopped, released, same) =
        missed_out (s' ∷ ss) (step_on cfg s e) (n + 1) bound h' m.1 (omega arith) in
      (fault, stopped, released, same ∙ pc)

  -- An engine at a valid WAITPIN with `n` samples counted that misses in every further sample times out
  -- at the sample that reaches its limit and at none before: after any number of samples short of the limit it
  -- runs with each of them counted, without a new fault and with the PC on the WAITPIN; after all of
  -- them it has stopped with the timeout fault, its outputs released and its PC on the WAITPIN.
  pub waitpin_times_out :
      (early late : List Sample) (e : Engine) (n bound : ℕ)
      → IsAtWaitPin cfg f n bound e
      → AllMiss f early
      → AllMiss f late
      → 0 < length late
      → n + length early + length late ≡ bound
      → let before = cycles cfg early e in
        let after = cycles cfg late before in
        ((before.running ≡ true)
          × (before.blocked ≡ n + length early)
          × (before.fault ≡ e.fault)
          × (before.pc ≡ e.pc))
        × ((after.fault ≡ Fault.timeout)
            × (after.running ≡ false)
            × (after.direction ≡ 0)
            × (after.pc ≡ e.pc))
  waitpin_times_out early late e n bound h m m' some_late q =
      let (waits, same) = waitpin_waits early e n bound h m (omega arith) in
      let (fault, stopped, released, pc) =
        missed_out late (cycles cfg early e) (n + length early) bound waits m' q in
      (
        (waits.running, waits.blocked, still_unfaulted early e n bound h m (omega arith), same),
        (fault, stopped, released, pc ∙ same),
      )
