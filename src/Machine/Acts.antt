-- ===== src/Machine/Acts.antt =====
-- What a host command may do to an engine: a specification of `command` and `program_word` as a
-- relation between an engine before and after.
use ttihp_protocol_emulator.Prelude.{
  ℕ, suc, zero, ◌/◌, ◌%◌, ◌^◌, ◌≤◌, ◌<◌, Bool, true, false, not, ◌&&◌, ◌||◌, ◌≡◌, ◌≢◌, ◌⊎◌, inl,
  inr, refl, Option, List, [], ◌∷◌, ◌++◌, arith, length, get_or, set, map_from, any_from,
  get_or-set, nonzero, if◌then◌else◌, Bool-cases, Option-cases, ◌==◌,
}
use native.Mathlib.Decide.{ℕ_discrete, dec_lt}
use ttihp_protocol_emulator.Prelude.Bits.{bit, and_not}
use ttihp_protocol_emulator.Config.{Config}
use ttihp_protocol_emulator.Engine.{Engine, fresh, start}
use ttihp_protocol_emulator.Machine.{Machine, engine_at}
use ttihp_protocol_emulator.Machine.Command.{
  HostOp, host_op, rejects, effect, command, program_word,
}

-- BEGIN, COMMIT, OWN, START, STOP, CLEAR, EVENT, FLUSH, TRIGGER and the load of a program word, each
-- with what the engine must satisfy for it.
pub data Act (cfg : Config) (e e' : Engine) : Type 0 where
  begins :
      e' ≡ record e {
        running = false;
        committed = false;
        direction = 0;
        program = [];
        writing = true;
      }
      → Act cfg e e'
  commits :
      e.running ≡ false
      → e.writing ≡ true
      → 0 < length e.program
      → length e.program ≤ cfg.program_words
      → e' ≡ record e { committed = true; writing = false }
      → Act cfg e e'
  owns :
      (owned drain : ℕ)
      → e.running ≡ false
      → and_not drain owned ≡ 0
      → e' ≡ record e { ownership = owned; open_drain = drain }
      → Act cfg e e'
  starts : e.committed ≡ true → e.fault ≡ 0 → e' ≡ start e → Act cfg e e'
  stops : e' ≡ record e { running = false; direction = 0 } → Act cfg e e'
  clears : e.running ≡ false → e' ≡ record e { fault = 0 } → Act cfg e e'
  marks : e' ≡ record e { event = true } → Act cfg e e'
  flushes : e.running ≡ false → e' ≡ record e { tx = []; rx = [] } → Act cfg e e'
  triggers : (t : Option (ℕ × ℕ)) → e.running ≡ false → e' ≡ record e { trigger = t } → Act cfg e e'
  loads :
      (word : ℕ)
      → e.running ≡ false
      → e.writing ≡ true
      → length e.program ≢ cfg.program_words
      → word < 2 ^ 32
      → e' ≡ record e { program = e.program ++ (word ∷ []) }
      → Act cfg e e'

-- nothing, or one act
abbrev pub MayAct : Config → Engine → Engine → Type 0
MayAct cfg e e' = (e' ≡ e) ⊎ Act cfg e e'

-- An act on engine `k` of a list is nothing for the others.
set-MayAct :
    (cfg : Config) (es : List Engine) (k i : ℕ) (e' : Engine)
    → Act cfg (get_or es k fresh) e'
    → MayAct cfg (get_or es i fresh) (get_or (set es k e') i fresh)
set-MayAct cfg es k i e' a = elim (ℕ_discrete k i) [
  | no ne ↦ inl (ground (arith, get_or-set es k i e' fresh))
  | yes eq ↦ elim (dec_lt k (length es)) [
    | no out ↦ inl (ground (arith, get_or-set es k i e' fresh))
    | yes below ↦
        let here : get_or (set es k e') i fresh ≡ e' = ground (arith, get_or-set es k i e' fresh) in
        inr (rw (here, ← eq) a)
  ]
]

-- Where `f` acts on every engine of a mask that passes the test `any`.
on_chosen-MayAct :
    (cfg : Config) (mask : ℕ) (f : Engine → Engine) (bad : Engine → Bool)
    → ((e : Engine) → bad e ≡ false → Act cfg e (f e))
    → (k i : ℕ) (es : List Engine) → any_from k (λ j e. bit mask j && bad e) es ≡ false
    → MayAct cfg
        (get_or es i fresh)
        (get_or (map_from k (λ j e. if bit mask j then f e else e) es) i fresh)
on_chosen-MayAct cfg mask f bad acts k i [] h = inl refl
on_chosen-MayAct cfg mask f bad acts k zero (e ∷ es) h = elim (Bool-cases (bit mask k)) [
  | inl chosen ↦ rw chosen (inr (acts e (ground (arith, h, chosen))))
  | inr other ↦ rw other (inl refl)
]
on_chosen-MayAct cfg mask f bad acts k (suc i) (e ∷ es) h =
    on_chosen-MayAct cfg mask f bad acts (suc k) i es (ground (arith, h))

never_any : (mask k : ℕ) (es : List Engine) → any_from k (λ j e. bit mask j && false) es ≡ false
never_any mask k [] = refl
never_any mask k (e ∷ es) = ground (arith, never_any mask (suc k) es)

module _ (cfg : Config) (m : Machine) (payload i : ℕ) where
  -- An accepted command leaves every engine alone or does one act on it.
  effect-MayAct :
      (o : HostOp)
      → rejects cfg o m payload ≡ false
      → MayAct cfg (engine_at m i) (engine_at (effect o m payload) i)
  unfolding effect rejects
  effect-MayAct HostOp.select h = inl refl
  effect-MayAct HostOp.begin h = set-MayAct cfg m.engines m.selected i _ (begins refl)
  effect-MayAct HostOp.commit h =
      set-MayAct cfg m.engines m.selected i _ (
        commits (ground (arith, h)) (ground (arith, h)) (ground (arith, h)) (ground (arith, h))
          refl)
  effect-MayAct HostOp.own h =
      set-MayAct cfg m.engines m.selected i _
        (owns (payload % 256) (payload / 2 ^ 8 % 256) (ground (arith, h)) (ground (arith, h)) refl)
  effect-MayAct HostOp.start_op h =
      on_chosen-MayAct cfg payload start (λ e. not e.committed || nonzero e.fault)
        (λ e q. starts (ground (arith, q)) (ground (arith, q)) refl) 0 i m.engines
        (ground (arith, h))
  effect-MayAct HostOp.stop_op h =
      on_chosen-MayAct cfg payload _ (λ e. false) (λ e q. stops refl) 0 i m.engines
        (never_any payload 0 m.engines)
  effect-MayAct HostOp.route h = inl refl
  effect-MayAct HostOp.clear h =
      on_chosen-MayAct cfg (and_not payload (2 ^ 23)) _ (λ e. e.running) (λ e q. clears q refl) 0 i
        m.engines (ground (arith, h))
  effect-MayAct HostOp.read_sel h = inl refl
  effect-MayAct HostOp.event_op h =
      on_chosen-MayAct cfg payload _ (λ e. false) (λ e q. marks refl) 0 i m.engines
        (never_any payload 0 m.engines)
  effect-MayAct HostOp.flush h =
      set-MayAct cfg m.engines m.selected i _ (flushes (ground (arith, h)) refl)
  effect-MayAct HostOp.trigger_op h =
      set-MayAct cfg m.engines m.selected i _ (triggers _ (ground (arith, h)) refl)

module _ (cfg : Config) (m : Machine) (word i : ℕ) where
  -- A command word, accepted or not, leaves every engine alone or does one act on it, whose guard the
  -- engine satisfies.
  pub command-MayAct : MayAct cfg (engine_at m i) (engine_at (command cfg m word).0 i)
  unfolding command
  command-MayAct = elim (Option-cases (host_op (word / 2 ^ 24))) [
    | inl q ↦ rw (q, command) (inl refl)
    | inr (o, q) ↦ elim (Bool-cases (rejects cfg o m (word % 2 ^ 24))) [
      | inl bad ↦ rw (q, command) (rw bad (inl refl))
      | inr good ↦ rw (q, command) (rw good (effect-MayAct cfg m (word % 2 ^ 24) i o good))
    ]
  ]

  pub program_word-MayAct : MayAct cfg (engine_at m i) (engine_at (program_word cfg m word).0 i)
  unfolding program_word
  program_word-MayAct =
      let e = engine_at m m.selected in
      elim (Bool-cases (e.running || (not e.writing || length e.program == cfg.program_words))) [
        | inl bad ↦ rw bad (inl refl)
        | inr good ↦ rw good (
            set-MayAct cfg m.engines m.selected i _ (
              loads (word % 2 ^ 32) (ground (arith, good)) (ground (arith, good))
                (ground (arith, good)) (omega arith) refl))
      ]
