-- ===== src/Pio/Valid/Opcodes.antt =====
-- Every opcode of `_execute` in host/pio/sim.py keeps a state machine and its block well-formed.
use ttihp_protocol_emulator.Prelude.{
  ℕ, ◌/◌, ◌%◌, ◌^◌, ◌≤◌, ◌<◌, bit_or, Bool, true, false, [], ◌∷◌, nonempty, leb, if◌then◌else◌, ◌≡◌,
  arith, ◌&&◌, inl, inr, ◌∙◌, Bool-cases, length-append,
}
use ttihp_protocol_emulator.Prelude.Bits.{bit, and_not}
use ttihp_protocol_emulator.Prelude.Widths.{bit_or-lt, and_not-lt, pow-lt}
use ttihp_protocol_emulator.Prelude.Results.{ok, raise}
use ttihp_protocol_emulator.Pio.{StateMachine, Core}
use ttihp_protocol_emulator.Pio.Helpers.{irq_index, refill, shift_out}
use ttihp_protocol_emulator.Pio.Execute.{
  Outcome, ends, execute_jmp, wait_irq, execute_wait, in_source, shifted_in, execute_in,
  out_destination, refilled, execute_out, execute_pull, execute_push, execute_push_pull, mov_source,
  mov_operation, mov_destination, execute_mov, execute_irq, execute_set, execute,
}
use ttihp_protocol_emulator.Pio.Valid.{
  IsValid, IsShared, Gives, Gives-bind, Words-append, pins_in-lt, bit_reverse-lt,
  write_pins-IsShared, irq_index-Gives, status-Gives, refill-IsValid, shift_out-IsValid,
  shift_in_value-lt,
}

-- a state machine and its block, both well-formed, with the configuration kept
pub record IsSound (old new : Core) : Type 0 where
  pub machine : IsValid new.sm
  pub shared : IsShared new.block
  pub configured : new.sm.config ≡ old.sm.config

abbrev pub Sound : Core → Outcome → Type 0
Sound old = Gives (λ ended. IsSound old ended.0)

module _ (core : Core) (v : IsValid core.sm) (s : IsShared core.block) where
  execute_jmp-Sound : (low visible : ℕ) → Sound core (execute_jmp core low visible)
  unfolding execute_jmp
  execute_jmp-Sound low visible = ground arith

  flag-IsShared :
      (flag : ℕ)
      → flag < 8
      → (and_not core.block.irq (2 ^ flag) < 2 ^ 8) × (bit_or core.block.irq (2 ^ flag) < 2 ^ 8)
  flag-IsShared flag h = (
    and_not-lt 8 core.block.irq (2 ^ flag) s.flags,
    bit_or-lt 8 core.block.irq (2 ^ flag) s.flags (pow-lt 8 flag h),
  )

  wait_irq-Sound : (index : ℕ) (pol : Bool) → Sound core (wait_irq core index pol)
  unfolding wait_irq
  wait_irq-Sound index pol =
      Gives-bind (λ flag. flag < 8) (λ ended. IsSound core ended.0) (irq_index core index) _
        (irq_index-Gives core index) (λ flag h. ground (arith, flag-IsShared flag h))

  execute_wait-Sound : (low visible : ℕ) → Sound core (execute_wait core low visible)
  unfolding execute_wait
  execute_wait-Sound low visible = ground (arith, wait_irq-Sound (low % 32) (bit low 7))

  execute_irq-Sound : (low : ℕ) → Sound core (execute_irq core low)
  unfolding execute_irq
  execute_irq-Sound low =
      Gives-bind (λ flag. flag < 8) (λ ended. IsSound core ended.0) (irq_index core (low % 32)) _
        (irq_index-Gives core (low % 32)) (λ flag h. ground (arith, flag-IsShared flag h))

  in_source-Gives : (src visible : ℕ) → Gives (λ value. value < 2 ^ 32) (in_source core src visible)
  unfolding in_source
  in_source-Gives src visible = ground (arith, pins_in-lt core visible)

  shifted_in-Sound :
      (isr count : ℕ) → isr < 2 ^ 32 → count ≤ 32 → Sound core (shifted_in core (isr, count))
  unfolding shifted_in
  shifted_in-Sound isr count h k =
      ground (arith, Words-append core.sm.rx isr v.rx_words h, length-append core.sm.rx (isr ∷ []))

  execute_in-Sound : (low visible : ℕ) → Sound core (execute_in core low visible)
  unfolding execute_in
  execute_in-Sound low visible =
      Gives-bind (λ value. value < 2 ^ 32) (λ ended. IsSound core ended.0)
        (in_source core (low / 2 ^ 5 % 8) visible) _ (in_source-Gives (low / 2 ^ 5 % 8) visible)
        (λ value h.
          let fits = shift_in_value-lt core.sm value (low % 32) in
          shifted_in-Sound _ _ fits.0 fits.1)

  execute_pull-Sound : (if_flag block : Bool) → Sound core (execute_pull core if_flag block)
  unfolding execute_pull refill
  execute_pull-Sound if_flag block = ground (arith, refill-IsValid core.sm v)

  execute_push-Sound : (if_flag block : Bool) → Sound core (execute_push core if_flag block)
  unfolding execute_push
  execute_push-Sound if_flag block = ground (
    arith,
    Words-append core.sm.rx core.sm.isr v.rx_words v.isr_word,
    length-append core.sm.rx (core.sm.isr ∷ []),
  )

  execute_push_pull-Sound : (low : ℕ) → Sound core (execute_push_pull core low)
  unfolding execute_push_pull
  execute_push_pull-Sound low = ground (
    arith,
    execute_pull-Sound (bit low 6) (bit low 5),
    execute_push-Sound (bit low 6) (bit low 5),
  )

  mov_source-Gives :
      (src visible : ℕ) → Gives (λ value. value < 2 ^ 32) (mov_source core src visible)
  unfolding mov_source
  mov_source-Gives src visible = ground (arith, pins_in-lt core visible, status-Gives core)

  mov_operation-Gives :
      (operation value : ℕ)
      → value < 2 ^ 32
      → Gives (λ moved. moved < 2 ^ 32) (mov_operation operation value)
  unfolding mov_operation
  mov_operation-Gives operation value h = ground (arith, bit_reverse-lt value)

  mov_destination-Sound :
      (dest value : ℕ) → value < 2 ^ 32 → Sound core (mov_destination core dest value)
  unfolding mov_destination
  mov_destination-Sound dest value h = ground (
    arith,
    write_pins-IsShared core.sm.config.out_base core.sm.config.out_count value false core.block s,
    write_pins-IsShared core.sm.config.out_base core.sm.config.out_count value true core.block s,
  )

  execute_mov-Sound : (low visible : ℕ) → Sound core (execute_mov core low visible)
  unfolding execute_mov
  execute_mov-Sound low visible =
      Gives-bind (λ value. value < 2 ^ 32) (λ ended. IsSound core ended.0)
        (mov_source core (low % 8) visible) _ (mov_source-Gives (low % 8) visible)
        (λ value h.
          Gives-bind (λ value. value < 2 ^ 32) (λ ended. IsSound core ended.0)
            (mov_operation (low / 2 ^ 3 % 4) value) _
            (mov_operation-Gives (low / 2 ^ 3 % 4) value h)
            (λ moved k. mov_destination-Sound (low / 2 ^ 5 % 8) moved k))

  out_destination-Sound :
      (dest value n : ℕ) → value < 2 ^ 32 → n < 32 → Sound core (out_destination core dest value n)
  unfolding out_destination
  out_destination-Sound dest value n h k = ground (
    arith,
    write_pins-IsShared core.sm.config.out_base core.sm.config.out_count value false core.block s,
    write_pins-IsShared core.sm.config.out_base core.sm.config.out_count value true core.block s,
  )

  execute_set-Sound : (low : ℕ) → Sound core (execute_set core low)
  unfolding execute_set
  execute_set-Sound low = ground (
    arith,
    write_pins-IsShared core.sm.config.set_base core.sm.config.set_count (low % 32) false core.block
        s,
    write_pins-IsShared core.sm.config.set_base core.sm.config.set_count (low % 32) true core.block
        s,
  )

refilled-IsValid : (sm : StateMachine) → IsValid sm → IsValid (refilled sm)
refilled-IsValid sm v = ground (arith, refill-IsValid sm v)

refilled-config : (sm : StateMachine) → (refilled sm).config ≡ sm.config
unfolding refill
refilled-config sm = ground arith

shift_out-config : (sm : StateMachine) (n : ℕ) → (shift_out sm n).0.config ≡ sm.config
unfolding shift_out
shift_out-config sm n = ground arith

Sound-trans :
    (old mid : Core) (o : Outcome) → mid.sm.config ≡ old.sm.config → Sound mid o → Sound old o
Sound-trans old mid (ok ended) e h = ground arith
Sound-trans old mid (raise error) e h = h

out_refill-Sound :
    (core : Core) (b : Bool)
    → IsValid core.sm
    → IsShared core.block
    → Sound core (
        ends
          (record core { sm = if b then refill core.sm else record core.sm { txstall = true } })
          true
          false)
unfolding refill
out_refill-Sound core b v s = ground (arith, refill-IsValid core.sm v)

execute_out-Sound :
    (core : Core)
    → IsValid core.sm
    → IsShared core.block
    → (low : ℕ) → Sound core (execute_out core low)
unfolding execute_out
execute_out-Sound core v s low =
    elim (Bool-cases
      (core.sm.config.autopull && leb core.sm.config.pull_thresh core.sm.osr_count)) [
        | inl empty ↦ rw empty (out_refill-Sound core (nonempty core.sm.tx) v s)
        | inr ready ↦
            let sm' = (shift_out core.sm (low % 32)).0 in
            let shifted = shift_out-IsValid core.sm (low % 32) v in
            let mid = record core { sm = refilled sm' } in
            rw ready (
              Sound-trans core mid _ (refilled-config sm' ∙ shift_out-config core.sm (low % 32)) (
                out_destination-Sound mid (refilled-IsValid sm' shifted.0) s (low / 2 ^ 5 % 8)
                  (shift_out core.sm (low % 32)).1 (low % 32) shifted.1 (omega arith)))
      ]

-- Every instruction keeps a well-formed state machine and block well-formed, or raises an error that
-- the module names.
pub execute-Sound :
    (core : Core)
    → IsValid core.sm
    → IsShared core.block
    → (instr visible : ℕ) → Sound core (execute core instr visible)
unfolding execute
execute-Sound core v s instr visible = ground (
  arith,
  execute_jmp-Sound core v s (instr % 256) visible,
  execute_wait-Sound core v s (instr % 256) visible,
  execute_in-Sound core v s (instr % 256) visible,
  execute_out-Sound core v s (instr % 256),
  execute_push_pull-Sound core v s (instr % 256),
  execute_mov-Sound core v s (instr % 256) visible,
  execute_irq-Sound core v s (instr % 256),
  execute_set-Sound core v s (instr % 256),
)
