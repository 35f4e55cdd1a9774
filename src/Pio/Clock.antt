-- ===== src/Pio/Clock.antt =====
-- `clock` of a state machine, and `load` and `step` of `PioBlock`, in host/pio/sim.py.
use ttihp_protocol_emulator.Prelude.{
  ℕ, suc, ◌+◌, ◌-◌, ◌/◌, ◌%◌, ◌^◌, bit_and, bit_or, Bool, true, false, not, ◌&&◌, none, some, List,
  [], ◌∷◌, length, get_elem?, set, replicate, is_some, ltb, nonzero, ◌==◌, if◌then◌else◌,
}
use ttihp_protocol_emulator.Prelude.Bits.{and_not}
use ttihp_protocol_emulator.Prelude.Results.{Result, ok, raise, ◌>>=◌}
use ttihp_protocol_emulator.Pio.{StateMachine, Shared, Core, PioBlock, PioError, fresh_machine}
use ttihp_protocol_emulator.Pio.Helpers.{write_pins, side_set, delay_of, background_pull}
use ttihp_protocol_emulator.Pio.Execute.{execute}

pub data Source : Type 0 where
  forced exec mem : Source

-- the instruction of this cycle, and where it comes from
unfoldable pub fetch : Core → Result PioError (StateMachine × ℕ × Source)
fetch core =
    let sm = core.sm in
    elim sm.forced [
      | some instr ↦ ok (sm, instr, Source.forced)
      | none ↦ elim sm.exec_next [
        | some instr ↦ ok (record sm { exec_next = none }, instr, Source.exec)
        | none ↦ elim (get_elem? core.block.mem sm.pc) [
          | some instr ↦ ok (record sm { last_pc = some sm.pc }, instr, Source.mem)
          | none ↦ raise PioError.index_error
        ]
      ]
    ]

-- the side-set, after the instruction's own write
unfoldable pub side_write : Core → ℕ → Result PioError Core
side_write core instr =
    let c = core.sm.config in
    side_set c instr >>= λ side. elim side [
      | none ↦ ok core
      | some value ↦ ok (record core {
        block = write_pins c.sideset_base c.sideset_count value c.sideset_pindir core.block;
      })
    ]

unfoldable pub pull_after : ℕ → StateMachine → StateMachine
pull_after instr sm = if sm.enabled && not (instr / 2 ^ 13 == 3) then background_pull sm else sm

-- a stalled instruction stays pending
unfoldable pub keep : Source → ℕ → StateMachine → StateMachine
keep Source.forced instr sm = record sm { forced = some instr }
keep Source.exec instr sm = record sm { exec_next = some instr }
keep Source.mem instr sm = sm

unfoldable pub next_pc : Source → Bool → StateMachine → ℕ
next_pc Source.mem false sm =
    if sm.pc == sm.config.wrap_top then sm.config.wrap_bottom else (sm.pc + 1) % 32
next_pc Source.mem true sm = sm.pc
next_pc Source.exec jumped sm = sm.pc
next_pc Source.forced jumped sm = sm.pc

-- the end of an instruction that did not stall
unfoldable pub complete : Source → ℕ → Bool → StateMachine → Result PioError StateMachine
complete Source.forced instr jumped sm =
    ok (record sm { executed = sm.executed + 1; forced = none })
complete source instr jumped sm =
    let ended = λ (wait : ℕ). record sm {
      executed = sm.executed + 1;
      delay = wait;
      pc = next_pc source jumped sm;
    } in
    if is_some sm.exec_next
    then ok (ended 0)
    else (delay_of sm.config instr >>= λ wait. ok (ended wait))

unfoldable pub settle : Source → ℕ → Bool → Bool → StateMachine → Result PioError StateMachine
settle source instr stalled jumped sm =
    if stalled
    then ok (keep source instr (record sm { stalled = true }))
    else complete source instr jumped (record sm { stalled = false })

unfoldable pub issue : Core → ℕ → Source → ℕ → Result PioError Core
issue core instr source visible = execute core instr visible >>= λ ended.
    side_write ended.0 instr >>= λ written.
    settle source instr ended.1 ended.2 (pull_after instr written.sm) >>= λ sm.
    ok (record written { sm = sm })

-- no instruction in this cycle
abbrev pub idles : Core → StateMachine → Result PioError (Core × Bool)
idles core sm = ok (record core { sm = sm }, false)

unfoldable pub runs : Core → StateMachine → ℕ → Result PioError (Core × Bool)
runs core sm visible = fetch (record core { sm = sm }) >>= λ fetched.
    issue (record core { sm = fetched.0 }) fetched.1 fetched.2 visible >>= λ core'. ok (core', true)

-- the new state, and whether an instruction was issued
unfoldable pub clock : Core → ℕ → Result PioError (Core × Bool)
clock core visible =
    let sm = record core.sm { last_pc = none } in
    if is_some sm.forced
    then runs core sm visible
    else if not sm.enabled
    then idles core sm
    else if ltb (sm.div_count + 1) sm.config.clkdiv
    then idles core (record sm { div_count = sm.div_count + 1 })
    else if nonzero sm.delay
    then idles core (background_pull (record sm { div_count = 0; delay = sm.delay - 1 }))
    else runs core (record sm { div_count = 0 }) visible

-- `PioBlock(rp2350, gpio_base)`
unfoldable pub new_block : Bool → ℕ → PioBlock
new_block rp2350 gpio_base = record {
  shared = record { rp2350 = rp2350; mem = replicate 32 0; irq = 0; out = 0; oe = 0 };
  gpio_base = gpio_base;
  input_sync_bypass = 0;
  sync1 = 0;
  sync2 = 0;
  cycle = 0;
  sms = fresh_machine 0 ∷ fresh_machine 1 ∷ fresh_machine 2 ∷ fresh_machine 3 ∷ [];
}

-- `for i, word in enumerate(instructions)`
unfoldable pub load_words : List ℕ → ℕ → List ℕ → List ℕ
load_words [] offset memory = memory
load_words (word ∷ words) offset memory =
    load_words words (suc offset) (set memory offset (word % 2 ^ 16))

unfoldable pub load : List ℕ → ℕ → PioBlock → Result PioError PioBlock
load instructions offset block =
    if ltb 32 (offset + length instructions)
    then raise PioError.does_not_fit
    else ok (record block {
      shared = record block.shared { mem = load_words instructions offset block.shared.mem };
    })

-- the levels that the state machines see: behind the synchroniser, or raw where it is bypassed
unfoldable pub visible_levels : PioBlock → ℕ → ℕ
visible_levels block raw =
    bit_or (and_not block.sync2 block.input_sync_bypass) (bit_and raw block.input_sync_bypass)

unfoldable pub clock_all :
    List StateMachine → ℕ → Shared → Result PioError (List StateMachine × Shared)
clock_all [] visible shared = ok ([], shared)
clock_all (sm ∷ sms) visible shared =
    clock (record { sm = sm; block = shared }) visible >>= λ first.
    clock_all sms visible first.0.block >>= λ rest. ok (first.0.sm ∷ rest.0, rest.1)

unfoldable pub step : PioBlock → ℕ → Result PioError PioBlock
step block pins =
    let raw = pins % 2 ^ 32 in
    clock_all block.sms (visible_levels block raw) block.shared >>= λ clocked. ok (record block {
      sms = clocked.0;
      shared = clocked.1;
      sync2 = block.sync1;
      sync1 = raw;
      cycle = block.cycle + 1;
    })
