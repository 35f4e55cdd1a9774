-- ===== src/Pio/Valid/Cycles.antt =====
-- A clock of a state machine of host/pio/sim.py keeps it well-formed.
use ttihp_protocol_emulator.Prelude.{
  ℕ, zero, suc, ◌-◌, ◌<◌, Bool, true, false, none, some, List, [], ◌∷◌, length, get_elem?, ◌≡◌,
  refl, arith, sym, ◌∙◌, ap, subst,
}
use ttihp_protocol_emulator.Prelude.Results.{ok}
use ttihp_protocol_emulator.Pio.{StateMachine, StateMachineConfig, Core}
use ttihp_protocol_emulator.Pio.Helpers.{write_pins, side_set, delay_of, background_pull, refill}
use ttihp_protocol_emulator.Pio.Execute.{execute}
use ttihp_protocol_emulator.Pio.Clock.{
  Source, forced, exec, mem, fetch, side_write, pull_after, keep, next_pc, complete, settle, issue,
  runs, clock,
}
use ttihp_protocol_emulator.Pio.Valid.{
  IsConfigured, IsValid, IsShared, Gives, Gives-bind, write_pins-IsShared, background_pull-IsValid,
}
use ttihp_protocol_emulator.Pio.Valid.Opcodes.{IsSound, execute-Sound}

get_elem?-some :
    {A : Type 0} (xs : List A) (i : ℕ) → i < length xs → (a : A) × (get_elem? xs i ≡ some a)
get_elem?-some [] i h = absurd (omega arith)
get_elem?-some (x ∷ xs) zero h = (x, refl)
get_elem?-some (x ∷ xs) (suc i) h = get_elem?-some xs i (omega arith)

fetch-Gives :
    (core : Core)
    → IsValid core.sm
    → IsShared core.block
    → Gives (λ fetched. IsSound core (record core { sm = fetched.0 })) (fetch core)
unfolding fetch
fetch-Gives core v s =
    let (instr, there) = get_elem?-some core.block.mem core.sm.pc (omega arith) in
    ground (arith, there)

side_set-Gives :
    (c : StateMachineConfig) (instr : ℕ)
    → IsConfigured c
    → Gives (λ side. Unit {0}) (side_set c instr)
unfolding side_set
side_set-Gives c instr k = ground arith

delay_of-Gives :
    (c : StateMachineConfig) (instr : ℕ)
    → IsConfigured c
    → Gives (λ wait. Unit {0}) (delay_of c instr)
unfolding delay_of
delay_of-Gives c instr k = ground arith

side_write-Gives :
    (core : Core) (instr : ℕ)
    → IsConfigured core.sm.config
    → IsShared core.block
    → Gives (λ written. IsShared written.block × (written.sm ≡ core.sm)) (side_write core instr)
unfolding side_write
side_write-Gives core instr k s =
    Gives-bind (λ side. Unit {0}) (λ written. IsShared written.block × (written.sm ≡ core.sm))
      (side_set core.sm.config instr) _ (side_set-Gives core.sm.config instr k)
      (λ side _.
        elim side
          as (λ side.
            Gives (λ (written : Core). IsShared written.block × (written.sm ≡ core.sm))
              (elim side [
                | none ↦ ok core
                | some value ↦ ok (record core {
                  block =
                      write_pins core.sm.config.sideset_base core.sm.config.sideset_count value
                        core.sm.config.sideset_pindir core.block;
                })
              ])) [
                | none ↦ (s, refl)
                | some value ↦ (write_pins-IsShared _ _ value _ core.block s, refl)
              ])

-- what the end of an instruction keeps
abbrev Settled : StateMachine → StateMachine → Type 0
Settled old new = IsValid new × (new.config ≡ old.config)

pull_after-Settled : (instr : ℕ) (sm : StateMachine) → IsValid sm → Settled sm (pull_after instr sm)
unfolding pull_after background_pull refill
pull_after-Settled instr sm v = ground (arith, background_pull-IsValid sm v)

complete-Gives :
    (source : Source) (instr : ℕ) (jumped : Bool) (sm : StateMachine)
    → IsConfigured sm.config
    → IsValid sm
    → Gives (Settled sm) (complete source instr jumped sm)
unfolding complete next_pc
complete-Gives forced instr jumped sm k v = ground arith
complete-Gives exec instr jumped sm k v = ground (arith, delay_of-Gives sm.config instr k)
complete-Gives mem instr true sm k v = ground (arith, delay_of-Gives sm.config instr k)
complete-Gives mem instr false sm k v = ground (arith, delay_of-Gives sm.config instr k)

settle-Gives :
    (source : Source) (instr : ℕ) (stalled jumped : Bool) (sm : StateMachine)
    → IsConfigured sm.config
    → IsValid sm
    → Gives (Settled sm) (settle source instr stalled jumped sm)
unfolding settle keep
settle-Gives forced instr true jumped sm k v = ground arith
settle-Gives exec instr true jumped sm k v = ground arith
settle-Gives mem instr true jumped sm k v = ground arith
settle-Gives source instr false jumped sm k v =
    let v' : IsValid (record sm { stalled = false }) = ground arith in
    complete-Gives source instr jumped (record sm { stalled = false }) k v'

issue-Gives :
    (core : Core) (instr : ℕ) (source : Source) (visible : ℕ)
    → IsConfigured core.sm.config
    → IsValid core.sm
    → IsShared core.block
    → Gives (IsSound core) (issue core instr source visible)
unfolding issue
issue-Gives core instr source visible k v s =
    Gives-bind (λ ended. IsSound core ended.0) (IsSound core) (execute core instr visible) _
      (execute-Sound core v s instr visible)
      (λ ended h.
        let k' = subst IsConfigured (sym h.configured) k in
        Gives-bind (λ written. IsShared written.block × (written.sm ≡ ended.0.sm)) (IsSound core)
          (side_write ended.0 instr) _ (side_write-Gives ended.0 instr k' h.shared)
          (λ written w.
            let valid = subst IsValid (sym w.1) h.machine in
            let pulled = pull_after-Settled instr written.sm valid in
            let config = pulled.1 ∙ ap (λ (sm : StateMachine). sm.config) w.1 ∙ h.configured in
            Gives-bind (Settled (pull_after instr written.sm)) (IsSound core)
              (settle source instr ended.1 ended.2 (pull_after instr written.sm)) _
              (settle-Gives source instr ended.1 ended.2 (pull_after instr written.sm)
                (subst IsConfigured (sym config) k) pulled.0)
              (λ sm settled. record {
                machine = settled.0;
                shared = w.0;
                configured = settled.1 ∙ config;
              })))

runs-Gives :
    (core : Core) (sm : StateMachine) (visible : ℕ)
    → IsConfigured sm.config
    → IsValid sm
    → IsShared core.block
    → sm.config ≡ core.sm.config
    → Gives (λ r. IsSound core r.0) (runs core sm visible)
unfolding runs
runs-Gives core sm visible k v s e =
    Gives-bind (λ fetched. IsSound (record core { sm = sm }) (record core { sm = fetched.0 }))
      (λ r. IsSound core r.0) (fetch (record core { sm = sm })) _
      (fetch-Gives (record core { sm = sm }) v s)
      (λ fetched f.
        let mid = record core { sm = fetched.0 } in
        Gives-bind (IsSound mid) (λ r. IsSound core r.0) (issue mid fetched.1 fetched.2 visible) _
          (issue-Gives mid fetched.1 fetched.2 visible (subst IsConfigured (sym f.configured) k)
            f.machine f.shared)
          (λ core' h. record {
            machine = h.machine;
            shared = h.shared;
            configured = h.configured ∙ f.configured ∙ e;
          }))

-- A clock of a well-formed state machine that is configured for real wraps and side-sets keeps it
-- well-formed, with its block and its configuration, whatever the memory and the pins hold; it fails
-- by an error that the module names only.
pub clock-Gives :
    (core : Core) (visible : ℕ)
    → IsConfigured core.sm.config
    → IsValid core.sm
    → IsShared core.block
    → Gives (λ r. IsSound core r.0) (clock core visible)
unfolding clock background_pull refill
clock-Gives core visible k v s =
    let quiet : StateMachine = record core.sm { last_pc = none } in
    let quiet-IsValid : IsValid quiet = ground arith in
    let timed : StateMachine = record quiet { div_count = 0 } in
    let timed-IsValid : IsValid timed = ground arith in
    let waited : StateMachine = record timed { delay = core.sm.delay - 1 } in
    let waited-IsValid : IsValid waited = ground arith in
    ground (
      arith,
      runs-Gives core quiet visible k quiet-IsValid s refl,
      runs-Gives core timed visible k timed-IsValid s refl,
      background_pull-IsValid waited waited-IsValid,
    )
