-- ===== src/Tests/Simulator.antt =====
-- The theorems on the PIO simulator and its assembler at concrete inputs.
use ttihp_protocol_emulator.Prelude.{
  ℕ, ◌+◌, ◌*◌, ◌%◌, ◌^◌, ◌≡◌, refl, true, false, ◌==◌, if◌then◌else◌, some, List, [], ◌∷◌,
  replicate, set, arith,
}
use ttihp_protocol_emulator.Prelude.Bits.{bit, and_not}
use ttihp_protocol_emulator.Prelude.Widths.{put_bit}
use ttihp_protocol_emulator.Prelude.Results.{ok}
use ttihp_protocol_emulator.Pio.{StateMachine, Core, PioBlock, m32, fresh_machine, default_config}
use ttihp_protocol_emulator.Pio.Helpers.{
  side_set, delay_of, shift_out, shift_in_value, write_levels, write_pins, background_pull,
}
use ttihp_protocol_emulator.Pio.Execute.{
  execute, execute_set, execute_mov, mov_source, mov_operation, mov_destination,
}
use ttihp_protocol_emulator.Pio.Clock.{
  mem, fetch, side_write, pull_after, next_pc, complete, settle, issue, runs, clock, clock_all,
  new_block, load, load_words, visible_levels, step,
}
use ttihp_protocol_emulator.Pio.Valid.{Gives}
use ttihp_protocol_emulator.Pio.Valid.Runs.{
  IsGood, clocks, loads, accesses, enables, here, later, run-step,
}
use ttihp_protocol_emulator.Pio.Pins.{issue-side, step-step_visible}
use ttihp_protocol_emulator.Pio.Shifts.{joined, shift_in_value-shift_out}
use ttihp_protocol_emulator.Pio.Loops.{IsSpinning, clocked, spin_finishes}

-- SET PINS, 1 and SET PINS, 0
abbrev program : List ℕ
program = 0xe001 ∷ 0xe000 ∷ []

abbrev loaded : PioBlock
loaded = record {
  shared = record {
    rp2350 = false;
    mem = 0xe001 ∷ 0xe000 ∷ replicate 30 0;
    irq = 0;
    out = 0;
    oe = 0;
  };
  gpio_base = 0;
  input_sync_bypass = 0;
  sync1 = 0;
  sync2 = 0;
  cycle = 0;
  sms = fresh_machine 0 ∷ fresh_machine 1 ∷ fresh_machine 2 ∷ fresh_machine 3 ∷ [];
}

load-loaded : load program 0 (new_block false 0) ≡ ok loaded
unfolding load load_words new_block
load-loaded = refl

abbrev enabled : PioBlock
enabled = record loaded { sms = set loaded.sms 1 (record (fresh_machine 1) { enabled = true }) }

abbrev stepped : PioBlock
stepped = record enabled {
  shared = record enabled.shared { out = 1 };
  sync1 = 6;
  cycle = 1;
  sms =
      set loaded.sms 1
        (record (fresh_machine 1) { enabled = true; pc = 1; executed = 1; last_pc = some 0 });
}

step-stepped : step enabled 6 ≡ ok stepped
unfolding step clock_all clock runs fetch visible_levels issue execute execute_set side_write
    side_set delay_of pull_after next_pc complete settle write_levels write_pins background_pull
    put_bit and_not bit
step-stepped = refl

run-step_example : IsGood stepped × Gives IsGood (step stepped 6)
run-step_example = run-step false 0 6 (
    later
      (later (later here (loads program 0 load-loaded))
        (accesses loaded 1 (enables (fresh_machine 1) true)))
      (clocks 6 step-stepped))

step-first : step (new_block false 0) 1 ≡ ok (record (new_block false 0) { sync1 = 1; cycle = 1 })
unfolding step clock_all clock new_block
step-first = refl

step-second :
    step (record (new_block false 0) { sync1 = 1; cycle = 1 }) 0
    ≡ ok (record (new_block false 0) { sync2 = 1; cycle = 2 })
unfolding step clock_all clock new_block
step-second = refl

step-step_visible_example :
    bit (visible_levels (record (new_block false 0) { sync2 = 1; cycle = 2 }) (0 % 2 ^ 32)) 0
    ≡ (if bit 0 0 then bit 0 0 else bit 1 0)
unfolding new_block
step-step_visible_example =
    step-step_visible (new_block false 0) (record (new_block false 0) { sync1 = 1; cycle = 1 })
      (record (new_block false 0) { sync2 = 1; cycle = 2 }) 1 0 0 0 (omega arith) step-first
      step-second

-- A state machine with one side-set pin, the pin 3, and a NOP that drives it high.
abbrev sided : Core
sided = record {
  sm = record (fresh_machine 0) {
    enabled = true;
    config = record default_config { sideset_count = 1; sideset_base = 3 };
  };
  block = record { rp2350 = false; mem = replicate 32 0; irq = 0; out = 0; oe = 0 };
}

abbrev sided_after : Core
sided_after = record {
  sm = record sided.sm { pc = 1; executed = 1 };
  block = record sided.block { out = 8 };
}

issue-sided : issue sided 0xb042 mem 0 ≡ ok sided_after
unfolding issue execute execute_mov mov_source mov_operation mov_destination side_write side_set
    delay_of pull_after next_pc complete settle write_levels write_pins background_pull put_bit
    and_not bit
issue-sided = refl

side_set-sided : side_set sided.sm.config 0xb042 ≡ ok (some 1)
unfolding side_set
side_set-sided = refl

issue-side_example : bit sided_after.block.out ((3 + 0) % 32) ≡ bit 1 0
issue-side_example =
    issue-side sided sided_after 0xb042 mem 0 1 0 (ground arith) (ground arith) issue-sided
      side_set-sided (omega arith) (omega arith)

abbrev shifting : StateMachine
shifting = record (fresh_machine 0) { isr = 0x12; osr = 0xab00_0000; osr_count = 0 }

shift_in_value-shift_out_example :
    joined (shift_in_value shifting (shift_out shifting 8).1 8).0 (shift_out shifting 8).0.osr
    ≡ joined 0x12 0xab00_0000 * 2 ^ (if 8 == 0 then 32 else 8) % 2 ^ 64
shift_in_value-shift_out_example =
    shift_in_value-shift_out shifting 8 (ground arith) (omega arith) refl refl

-- `JMP X--` at the address 0 with two cycles of delay, where X holds 1
abbrev spinning : Core
spinning = record {
  sm = record (fresh_machine 0) { enabled = true; x = 1 };
  block = record { rp2350 = false; mem = 576 ∷ replicate 31 0; irq = 0; out = 0; oe = 0 };
}

spinning-IsSpinning : IsSpinning 2 spinning
spinning-IsSpinning = ground arith

spin_finishes_example :
    (end : Core) × (clocked (2 * 3) (λ t. t) spinning ≡ ok end)
    × (end.sm.pc ≡ (if 0 == 31 then 0 else (0 + 1) % 32))
    × (end.sm.delay ≡ 0)
    × (end.sm.x ≡ m32)
    × (end.sm.executed ≡ 0 + 2)
spin_finishes_example =
    spin_finishes 2 1 spinning (λ t. t) spinning-IsSpinning refl refl (omega arith)
