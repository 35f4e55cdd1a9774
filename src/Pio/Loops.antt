-- ===== src/Pio/Loops.antt =====
-- How long a delay loop of host/pio/sim.py takes: `JMP X--` to its own address, with a delay.
use native.Mathlib.Nat.{zero-mul}
use ttihp_protocol_emulator.Prelude.{
  ℕ, zero, suc, ◌+◌, ◌*◌, ◌%◌, ◌^◌, ◌<◌, ◌≤◌, Bool, true, false, none, some, get_elem?, ◌≡◌, refl,
  ap, ◌∙◌, arith, ◌==◌, if◌then◌else◌, nonzero,
}
use ttihp_protocol_emulator.Prelude.Results.{Result, ok, ◌>>=◌}
use ttihp_protocol_emulator.Pio.{Core, PioError, m32}
use ttihp_protocol_emulator.Pio.Helpers.{side_set, delay_of, background_pull}
use ttihp_protocol_emulator.Pio.Execute.{execute, execute_jmp, decrement}
use ttihp_protocol_emulator.Pio.Clock.{
  fetch, side_write, pull_after, complete, settle, next_pc, issue, runs, clock, mem,
}

-- `k` clocks; the levels at the pins are `visible j` when `j` clocks remain
unfoldable pub clocked : ℕ → (ℕ → ℕ) → Core → Result PioError Core
clocked zero visible core = ok core
clocked (suc k) visible core = clock core (visible k) >>= λ r. clocked k visible r.0

-- A state machine at a `JMP X--` to its own address, with `d` cycles of delay, that neither divides its
-- clock nor side-sets nor pulls by itself, with no instruction forced or left by an EXEC.
pub record IsSpinning (d : ℕ) (core : Core) : Type 0 where
  pub on : core.sm.enabled ≡ true
  pub unforced : core.sm.forced ≡ none
  pub unexec : core.sm.exec_next ≡ none
  pub undivided : core.sm.config.clkdiv ≤ 1
  pub no_side : core.sm.config.sideset_count ≡ 0
  pub no_option : core.sm.config.sideset_opt ≡ false
  pub no_pull : core.sm.config.autopull ≡ false
  pub address : core.sm.pc < 32
  pub short : d < 32
  pub jump : get_elem? core.block.mem core.sm.pc ≡ some (64 + core.sm.pc + 256 * d)

-- the state after the instruction, with its delay ahead
abbrev issued : ℕ → Core → Core
issued d core = record core {
  sm = record core.sm {
    x = decrement core.sm.x;
    pc = if nonzero core.sm.x then core.sm.pc else next_pc mem false core.sm;
    delay = d;
    div_count = 0;
    executed = core.sm.executed + 1;
    stalled = false;
    last_pc = some core.sm.pc;
  };
}

-- the state that the instruction itself leaves
abbrev counted_down : Core → Core
counted_down core = record core { sm = record core.sm { x = decrement core.sm.x } }

execute-spin :
    (d : ℕ) (core : Core) (visible : ℕ)
    → core.sm.pc < 32
    → d < 32
    → execute core (64 + core.sm.pc + 256 * d) visible
      ≡ ok (counted_down core, false, nonzero core.sm.x)
unfolding execute execute_jmp
execute-spin d core visible h k = ground arith

side_set-none :
    (d : ℕ) (core : Core) (instr : ℕ) → IsSpinning d core → side_set core.sm.config instr ≡ ok none
unfolding side_set
side_set-none d core instr s = ground arith

delay_of-spin :
    (d : ℕ) (core : Core)
    → IsSpinning d core
    → delay_of core.sm.config (64 + core.sm.pc + 256 * d) ≡ ok d
unfolding delay_of
delay_of-spin d core s = ground arith

-- the state machine as the fetch leaves it
abbrev fetched : Core → Core
fetched core = record core { sm = record core.sm { last_pc = some core.sm.pc; div_count = 0 } }

fetch-spin :
    (d : ℕ) (core : Core)
    → IsSpinning d core
    → fetch (record core { sm = record core.sm { last_pc = none; div_count = 0 } })
      ≡ ok ((fetched core).sm, 64 + core.sm.pc + 256 * d, mem)
unfolding fetch
fetch-spin d core s = ground arith

side_write-spin :
    (d : ℕ) (core : Core) (instr : ℕ)
    → IsSpinning d core
    → side_write (counted_down (fetched core)) instr ≡ ok (counted_down (fetched core))
unfolding side_write
side_write-spin d core instr s = rw (side_set-none d core instr s) refl

settle-spin :
    (d : ℕ) (core : Core)
    → IsSpinning d core
    → settle mem
        (64 + core.sm.pc + 256 * d)
        false
        (nonzero core.sm.x)
        (pull_after (64 + core.sm.pc + 256 * d) (counted_down (fetched core)).sm)
      ≡ ok (issued d core).sm
unfolding settle complete pull_after background_pull next_pc
settle-spin d core s = ground (arith, delay_of-spin d core s)

issue-spin :
    (d : ℕ) (core : Core) (visible : ℕ)
    → IsSpinning d core
    → issue (fetched core) (64 + core.sm.pc + 256 * d) mem visible ≡ ok (issued d core)
unfolding issue
issue-spin d core visible s =
    rw
      (
        execute-spin d (fetched core) visible s.address s.short,
        side_write-spin d core (64 + core.sm.pc + 256 * d) s,
        settle-spin d core s,
      )
      refl

runs-spin :
    (d : ℕ) (core : Core) (visible : ℕ)
    → IsSpinning d core
    → runs core (record core.sm { last_pc = none; div_count = 0 }) visible
      ≡ ok (issued d core, true)
unfolding runs
runs-spin d core visible s = rw (fetch-spin d core s, issue-spin d core visible s) refl

clock-issued :
    (d : ℕ) (core : Core) (visible : ℕ)
    → IsSpinning d core
    → core.sm.delay ≡ 0
    → clock core visible ≡ ok (issued d core, true)
unfolding clock
clock-issued d core visible s e = ground (arith, runs-spin d core visible s)

-- what the delay asks of the state machine
record Waits (core : Core) : Type 0 where
  on : core.sm.enabled ≡ true
  unforced : core.sm.forced ≡ none
  undivided : core.sm.config.clkdiv ≤ 1
  no_pull : core.sm.config.autopull ≡ false

abbrev waited : ℕ → Core → Core
waited k core = record core { sm = record core.sm { last_pc = none; div_count = 0; delay = k } }

clock-waited :
    (k : ℕ) (core : Core) (visible : ℕ)
    → Waits core
    → core.sm.delay ≡ suc k
    → clock core visible ≡ ok (waited k core, false)
unfolding clock background_pull
clock-waited k core visible s e = ground arith

clocked-suc :
    (n : ℕ) (core core' : Core) (b : Bool) (visible : ℕ → ℕ)
    → clock core (visible n) ≡ ok (core', b)
    → clocked (suc n) visible core ≡ clocked n visible core'
unfolding clocked
clocked-suc n core core' b visible e = rw e refl

clocked-waited :
    (k rest : ℕ) (core : Core) (visible : ℕ → ℕ)
    → Waits core
    → core.sm.delay ≡ suc k
    → clocked (suc k + rest) visible core ≡ clocked rest visible (waited 0 core)
clocked-waited zero rest core visible s e =
    let one : suc zero + rest ≡ suc rest = omega arith in
    ap (λ n. clocked n visible core) one
    ∙ clocked-suc rest core (waited 0 core) false visible (clock-waited 0 core (visible rest) s e)
clocked-waited (suc k) rest core visible s e =
    let more : suc (suc k) + rest ≡ suc (suc k + rest) = omega arith in
    let later : Waits (waited (suc k) core) = ground arith in
    ap (λ n. clocked n visible core) more
    ∙ clocked-suc (suc k + rest) core (waited (suc k) core) false visible
        (clock-waited (suc k) core (visible (suc k + rest)) s e)
    ∙ clocked-waited k rest (waited (suc k) core) visible later refl

-- the state after the instruction and its delay
abbrev turned : ℕ → Core → Core
turned zero core = issued 0 core
turned (suc k) core = waited 0 (issued (suc k) core)

issued-Waits : (d : ℕ) (core : Core) → IsSpinning d core → Waits (issued d core)
issued-Waits d core s = ground arith

clocked-turned :
    (d rest : ℕ) (core : Core) (visible : ℕ → ℕ)
    → IsSpinning d core
    → core.sm.delay ≡ 0
    → clocked (suc d + rest) visible core ≡ clocked rest visible (turned d core)
clocked-turned zero rest core visible s e =
    let one : suc zero + rest ≡ suc rest = omega arith in
    ap (λ n. clocked n visible core) one
    ∙ clocked-suc rest core (issued 0 core) true visible (clock-issued 0 core (visible rest) s e)
clocked-turned (suc k) rest core visible s e =
    let more : suc (suc k) + rest ≡ suc (suc k + rest) = omega arith in
    ap (λ n. clocked n visible core) more
    ∙ clocked-suc (suc k + rest) core (issued (suc k) core) true visible
        (clock-issued (suc k) core (visible (suc k + rest)) s e)
    ∙ clocked-waited k rest (issued (suc k) core) visible (issued-Waits (suc k) core s) refl

-- While X is not 0 the state machine stays at the instruction.
turned-IsSpinning :
    (d n : ℕ) (core : Core)
    → IsSpinning d core
    → core.sm.x ≡ suc n
    → suc n < 2 ^ 32
    → IsSpinning d (turned d core)
      × ((turned d core).sm.x ≡ n)
      × ((turned d core).sm.pc ≡ core.sm.pc)
      × ((turned d core).sm.delay ≡ 0)
unfolding next_pc
turned-IsSpinning zero n core s e h = (ground arith, omega arith, ground arith, refl)
turned-IsSpinning (suc k) n core s e h = (ground arith, omega arith, ground arith, refl)

turned_kept :
    (d : ℕ) (core : Core)
    → ((turned d core).sm.config ≡ core.sm.config)
      × ((turned d core).sm.executed ≡ core.sm.executed + 1)
turned_kept zero core = (refl, refl)
turned_kept (suc k) core = (refl, refl)

turned_last :
    (d : ℕ) (core : Core)
    → core.sm.x ≡ 0
    → ((turned d core).sm.pc ≡ next_pc mem false core.sm) × ((turned d core).sm.x ≡ m32)
turned_last zero core e = ground arith
turned_last (suc k) core e = ground arith

turned_over : (d : ℕ) (core : Core) → (turned d core).sm.delay ≡ 0
turned_over zero core = refl
turned_over (suc k) core = refl

more_clocks : (n d : ℕ) → suc n * suc d ≡ suc d + n * suc d
more_clocks n d = grind arith

-- A state machine whose clock is not divided, with no side-set and no autopull, at a `JMP X--` to its own
-- address with `d` cycles of delay and with X at `n`, no delay ahead: after exactly (n + 1)(d + 1) clocks, whatever
-- the pins do in them, the PC is the next one, with the wrap, the delay is over, X is 2 ^ 32 - 1, and `n + 1`
-- instructions are completed.
pub spin_finishes :
    (d n : ℕ) (core : Core) (visible : ℕ → ℕ)
    → IsSpinning d core
    → core.sm.delay ≡ 0
    → core.sm.x ≡ n
    → n < 2 ^ 32
    → (end : Core) × (clocked (suc n * suc d) visible core ≡ ok end)
      × (end.sm.pc ≡ (
          if core.sm.pc == core.sm.config.wrap_top
          then core.sm.config.wrap_bottom
          else (core.sm.pc + 1) % 32))
      × (end.sm.delay ≡ 0)
      × (end.sm.x ≡ m32)
      × (end.sm.executed ≡ core.sm.executed + suc n)
unfolding clocked next_pc
spin_finishes d zero core visible s idle e h =
    let last = turned_last d core e in
    let once : clocked (suc zero * suc d) visible core ≡ ok (turned d core) =
      ap (λ k. clocked k visible core) (more_clocks 0 d)
      ∙ clocked-turned d (0 * suc d) core visible s idle
      ∙ ap (λ k. clocked k visible (turned d core)) (zero-mul (suc d)) in
    (turned d core, once, last.0, turned_over d core, last.1, (turned_kept d core).1)
spin_finishes d (suc n) core visible s idle e h =
    let next = turned-IsSpinning d n core s e h in
    let kept = turned_kept d core in
    let (end, run, pc, over, x, executed) =
      spin_finishes d n (turned d core) visible next.0 next.3 next.1 (omega (arith, h)) in
    let first : clocked (suc (suc n) * suc d) visible core
        ≡ clocked (suc n * suc d) visible (turned d core) =
      ap (λ k. clocked k visible core) (more_clocks (suc n) d)
      ∙ clocked-turned d (suc n * suc d) core visible s idle in
    (end, first ∙ run, rw (next.2, kept.0) at pc, over, x, omega (arith, executed, kept.1))
