-- ===== src/Pio/Valid/Runs.antt =====
-- In every run of a block of host/pio/sim.py, whatever the CPU does between two clocks, its state
-- machines stay well-formed.
use ttihp_protocol_emulator.Prelude.{
  ℕ, zero, suc, ◌%◌, ◌^◌, Bool, List, [], ◌∷◌, length, ◌≡◌, refl, arith, get_or, set, length-append,
  length-set, ◌∙◌, subst, sym,
}
use ttihp_protocol_emulator.Prelude.Results.{ok}
use ttihp_protocol_emulator.Pio.{
  StateMachineConfig, StateMachine, Shared, Core, PioBlock, put, get, force, restart, configure,
  fresh_machine,
}
use ttihp_protocol_emulator.Pio.Clock.{
  clock, clock_all, step, load, load_words, visible_levels, new_block,
}
use ttihp_protocol_emulator.Pio.Valid.{
  IsConfigured, IsValid, IsShared, Gives, Gives-bind, Words-append, Words-popleft,
  length-popleft-le,
}
use ttihp_protocol_emulator.Pio.Valid.Opcodes.{IsSound}
use ttihp_protocol_emulator.Pio.Valid.Cycles.{clock-Gives}

-- a state machine that is well-formed and configured
abbrev pub IsReady : StateMachine → Type 0
IsReady sm = IsConfigured sm.config × IsValid sm

abbrev pub AllReady : List StateMachine → Type 0
AllReady [] = Unit
AllReady (sm ∷ sms) = IsReady sm × AllReady sms

pub record IsGood (block : PioBlock) : Type 0 where
  pub machines : AllReady block.sms
  pub shared : IsShared block.shared

clock_all-Gives :
    (sms : List StateMachine) (visible : ℕ) (shared : Shared)
    → AllReady sms
    → IsShared shared
    → Gives (λ r. AllReady r.0 × IsShared r.1) (clock_all sms visible shared)
unfolding clock_all
clock_all-Gives [] visible shared r s = (tt, s)
clock_all-Gives (sm ∷ sms) visible shared r s =
    let core : Core = record { sm = sm; block = shared } in
    Gives-bind (λ first. IsSound core first.0) (λ r. AllReady r.0 × IsShared r.1)
      (clock core visible) _ (clock-Gives core visible r.0.0 r.0.1 s)
      (λ first h.
        Gives-bind (λ r. AllReady r.0 × IsShared r.1) (λ r. AllReady r.0 × IsShared r.1)
          (clock_all sms visible first.0.block) _
          (clock_all-Gives sms visible first.0.block r.1 h.shared)
          (λ rest g. (((subst IsConfigured (sym h.configured) r.0.0, h.machine), g.0), g.1)))

step-IsGood : (block : PioBlock) (pins : ℕ) → IsGood block → Gives IsGood (step block pins)
unfolding step
step-IsGood block pins g =
    Gives-bind (λ r. AllReady r.0 × IsShared r.1) IsGood
      (clock_all block.sms (visible_levels block (pins % 2 ^ 32)) block.shared) _
      (clock_all-Gives block.sms (visible_levels block (pins % 2 ^ 32)) block.shared g.machines
        g.shared)
      (λ r h. record { machines = h.0; shared = h.1 })

length-load_words :
    (words : List ℕ) (offset : ℕ) (memory : List ℕ)
    → length (load_words words offset memory) ≡ length memory
unfolding load_words
length-load_words [] offset memory = refl
length-load_words (word ∷ words) offset memory =
    length-load_words words (suc offset) (set memory offset (word % 2 ^ 16))
    ∙ length-set memory offset (word % 2 ^ 16)

load-IsGood :
    (words : List ℕ) (offset : ℕ) (block : PioBlock)
    → IsGood block
    → Gives IsGood (load words offset block)
unfolding load
load-IsGood words offset block g = ground (arith, length-load_words words offset block.shared.mem)

-- What the CPU does to one state machine: it writes and reads the FIFOs, forces an instruction,
-- restarts, enables or disables it, or gives it a configuration. The code takes any configuration; a wrap that starts
-- at 32 or above leads the PC out of the memory, and more than five side-set bits to a negative shift,
-- so these are left out.
pub data Access : StateMachine → StateMachine → Type 0 where
  puts : (sm : StateMachine) (word : ℕ) → Access sm (put word sm).0
  gets : (sm : StateMachine) → Access sm (get sm).0
  forces : (sm : StateMachine) (instr : ℕ) → Access sm (force instr sm)
  restarts : (sm : StateMachine) → Access sm (restart sm)
  enables : (sm : StateMachine) (on : Bool) → Access sm (record sm { enabled = on })
  configures :
      (sm : StateMachine) (c : StateMachineConfig) → IsConfigured c → Access sm (configure c sm)

put-IsValid : (sm : StateMachine) (word : ℕ) → IsValid sm → IsValid (put word sm).0
unfolding put
put-IsValid sm word v =
    ground (
      arith,
      Words-append sm.tx (word % 2 ^ 32) v.tx_words,
      length-append sm.tx (word % 2 ^ 32 ∷ []),
    )

get-IsValid : (sm : StateMachine) → IsValid sm → IsValid (get sm).0
unfolding get
get-IsValid sm v = ground (arith, Words-popleft sm.rx, length-popleft-le sm.rx)

pub Access-IsReady : {old new : StateMachine} → Access old new → IsReady old → IsReady new
unfolding put get force restart configure
Access-IsReady (puts sm word) r = ground (arith, put-IsValid sm word)
Access-IsReady (gets sm) r = ground (arith, get-IsValid sm)
Access-IsReady (forces sm instr) r = ground arith
Access-IsReady (restarts sm) r = ground arith
Access-IsReady (enables sm on) r = ground arith
Access-IsReady (configures sm c k) r = ground arith

-- One event of a run: a clock, a program that is loaded, or an access to a state machine.
pub data Event : PioBlock → PioBlock → Type 0 where
  clocks : {block next : PioBlock} (pins : ℕ) → step block pins ≡ ok next → Event block next
  loads :
      {block next : PioBlock} (words : List ℕ) (offset : ℕ)
      → load words offset block ≡ ok next
      → Event block next
  accesses :
      (block : PioBlock) (i : ℕ) {sm : StateMachine}
      → Access (get_or block.sms i (fresh_machine 0)) sm
      → Event block (record block { sms = set block.sms i sm })
  bypasses : (block : PioBlock) (mask : ℕ) → Event block (record block { input_sync_bypass = mask })

pub data Run (block : PioBlock) : PioBlock → Type 0 where
  here : Run block block
  later : {mid next : PioBlock} → Run block mid → Event mid next → Run block next

fresh-IsReady : (i : ℕ) → IsReady (fresh_machine i)
fresh-IsReady i = ground arith

get_or-IsReady :
    (sms : List StateMachine) (i : ℕ) → AllReady sms → IsReady (get_or sms i (fresh_machine 0))
get_or-IsReady [] i r = fresh-IsReady 0
get_or-IsReady (sm ∷ sms) zero r = r.0
get_or-IsReady (sm ∷ sms) (suc i) r = get_or-IsReady sms i r.1

set-AllReady :
    (sms : List StateMachine) (i : ℕ) (sm : StateMachine)
    → AllReady sms
    → IsReady sm
    → AllReady (set sms i sm)
set-AllReady [] i sm r k = tt
set-AllReady (s ∷ sms) zero sm r k = (k, r.1)
set-AllReady (s ∷ sms) (suc i) sm r k = (r.0, set-AllReady sms i sm r.1 k)

Event-IsGood : {block next : PioBlock} → Event block next → IsGood block → IsGood next
Event-IsGood (clocks {block} pins e) g = subst (Gives IsGood) e (step-IsGood block pins g)
Event-IsGood (loads {block} words offset e) g =
    subst (Gives IsGood) e (load-IsGood words offset block g)
Event-IsGood (accesses block i a) g = record {
  machines =
      set-AllReady block.sms i _ g.machines
        (Access-IsReady a (get_or-IsReady block.sms i g.machines));
  shared = g.shared;
}
Event-IsGood (bypasses block mask) g = record { machines = g.machines; shared = g.shared }

Run-IsGood : {block next : PioBlock} → Run block next → IsGood block → IsGood next
Run-IsGood here g = g
Run-IsGood (later r e) g = Event-IsGood e (Run-IsGood r g)

new_block-IsGood : (rp2350 : Bool) (gpio_base : ℕ) → IsGood (new_block rp2350 gpio_base)
unfolding new_block
new_block-IsGood rp2350 gpio_base = ground arith

-- In every run of a new block, whatever programs, FIFO words, forced instructions and pin levels it is
-- given, and whatever configurations whose wrap starts below 32 and whose side-set takes no more than five
-- bits with its enable bit, every state machine has its PC below 32, registers of 32 bits and no
-- FIFO above its depth, and the next clock keeps that so or raises an error that the module names.
pub run-step :
    (rp2350 : Bool) (gpio_base : ℕ) {block : PioBlock} (pins : ℕ)
    → Run (new_block rp2350 gpio_base) block
    → IsGood block × Gives IsGood (step block pins)
run-step rp2350 gpio_base {block} pins r =
    let good = Run-IsGood r (new_block-IsGood rp2350 gpio_base) in
    (good, step-IsGood block pins good)
