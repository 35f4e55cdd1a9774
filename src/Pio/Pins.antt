-- ===== src/Pio/Pins.antt =====
-- The pins of host/pio/sim.py bit by bit: writes of a window of pins, the side-set that overrides them,
-- reads through IN_BASE, and the two stages of the input synchroniser.
use native.Mathlib.Decide.{dec_lt}
use ttihp_protocol_emulator.Prelude.{
  ℕ, zero, suc, ◌+◌, ◌-◌, ◌*◌, ◌/◌, ◌%◌, ◌^◌, ◌<◌, ◌≤◌, bit_or, bit_and, Bool, true, false, some,
  ◌≡◌, ◌≢◌, refl, subst, ap, ◌∙◌, arith, ◌==◌, if◌then◌else◌, inl, inr, Bool-cases,
}
use ttihp_protocol_emulator.Prelude.Bits.{
  bit, and_not, bit-bit_or, bit-bit_and, bit-and_not, bit-mod,
}
use ttihp_protocol_emulator.Prelude.Widths.{
  bit-put_bit, bit-lt, bit-div_pow, bit-mul_pow, bit-mul_pow_low,
}
use ttihp_protocol_emulator.Prelude.Results.{ok, >>=-eq-ok}
use ttihp_protocol_emulator.Pio.{Shared, Core, PioBlock, rotate_right}
use ttihp_protocol_emulator.Pio.Helpers.{write_levels, write_pins, side_set, pins_in}
use ttihp_protocol_emulator.Pio.Execute.{execute}
use ttihp_protocol_emulator.Pio.Valid.{IsValid, IsShared}
use ttihp_protocol_emulator.Pio.Valid.Opcodes.{Sound, execute-Sound}
use ttihp_protocol_emulator.Pio.Clock.{
  Source, side_write, settle, pull_after, issue, visible_levels, step,
}

-- A write of at most 32 pins puts each bit of the value on its pin.
pub bit-write_levels :
    (base count value reg i : ℕ)
    → count ≤ 32
    → i < count
    → bit (write_levels base count value reg) ((base + i) % 32) ≡ bit value i
unfolding write_levels
bit-write_levels base zero value reg i h k = absurd (omega arith)
bit-write_levels base (suc n) value reg i h k = ground (
  arith,
  bit-put_bit (write_levels base n value reg) ((base + n) % 32) (bit value n) ((base + i) % 32),
  bit-write_levels base n value reg i,
)

-- It leaves every other pin alone.
pub bit-write_levels_other :
    (base count value reg p : ℕ)
    → ((i : ℕ) → i < count → (base + i) % 32 ≢ p)
    → bit (write_levels base count value reg) p ≡ bit reg p
unfolding write_levels
bit-write_levels_other base zero value reg p h = refl
bit-write_levels_other base (suc n) value reg p h = ground (
  arith,
  bit-put_bit (write_levels base n value reg) ((base + n) % 32) (bit value n) p,
  bit-write_levels_other base n value reg p (λ i k. h i (omega arith)),
  h n,
)

rotated_low :
    (value k i : ℕ)
    → 0 < k
    → k < 32
    → k + i < 32
    → bit (bit_or (value / 2 ^ k) (value * 2 ^ (32 - k))) i ≡ bit value (k + i)
rotated_low value k i p h q = ground (
  arith,
  bit-bit_or (value / 2 ^ k) (value * 2 ^ (32 - k)) i,
  bit-div_pow k value i,
  bit-mul_pow_low (32 - k) value i (omega arith),
)

rotated_high :
    (value k i : ℕ)
    → value < 2 ^ 32
    → 0 < k
    → k < 32
    → i < 32
    → 32 ≤ k + i
    → bit (bit_or (value / 2 ^ k) (value * 2 ^ (32 - k))) i ≡ bit value (k + i - 32)
rotated_high value k i small p h r q =
    let place : i ≡ 32 - k + (k + i - 32) = omega arith in
    let moved =
      ap (λ j. bit (value * 2 ^ (32 - k)) j) place ∙ bit-mul_pow (32 - k) value (k + i - 32) in
    ground (
      arith,
      bit-bit_or (value / 2 ^ k) (value * 2 ^ (32 - k)) i,
      bit-div_pow k value i,
      bit-lt 32 value (k + i) small q,
      moved,
    )

-- `rotate_right` of a word of 32 bits reads the bit `n + i`, around the word.
pub bit-rotate_right :
    (value n i : ℕ)
    → value < 2 ^ 32
    → i < 32
    → bit (rotate_right value n) i ≡ bit value ((n + i) % 32)
unfolding rotate_right
bit-rotate_right value n i small h = elim (Bool-cases (n % 32 == 0)) [
  | inl still ↦
      let same : (n + i) % 32 ≡ i = ground arith in
      rw (still, same) (bit-mod 32 value i ∙ ground arith)
  | inr turned ↦
      let k = n % 32 in
      let word = bit-mod 32 (bit_or (value / 2 ^ k) (value * 2 ^ (32 - k))) i in
      let positive : 0 < n % 32 = ground arith in
      rw turned (
        word ∙ elim (dec_lt (n % 32 + i) 32) [
          | yes low ↦
              let same : (n + i) % 32 ≡ n % 32 + i = omega arith in
              let here = rotated_low value (n % 32) i positive (omega arith) low in
              rw same (ground (arith, here))
          | no high ↦
              let same : (n + i) % 32 ≡ n % 32 + i - 32 = omega arith in
              let here =
                rotated_high value (n % 32) i small positive (omega arith) h (omega arith) in
              rw same (ground (arith, here))
        ])
]

pub bit-visible_levels :
    (block : PioBlock) (raw p : ℕ)
    → bit (visible_levels block raw) p
      ≡ (if bit block.input_sync_bypass p then bit raw p else bit block.sync2 p)
unfolding visible_levels
bit-visible_levels block raw p = ground (
  arith,
  bit-bit_or (and_not block.sync2 block.input_sync_bypass) (bit_and raw block.input_sync_bypass) p,
  bit-bit_and raw block.input_sync_bypass p,
  bit-and_not block.sync2 block.input_sync_bypass p,
)

-- what a clock does to the synchroniser
step-sync :
    (block next : PioBlock) (pins : ℕ)
    → step block pins ≡ ok next
    → (next.sync1 ≡ pins % 2 ^ 32)
      × (next.sync2 ≡ block.sync1)
      × (next.input_sync_bypass ≡ block.input_sync_bypass)
unfolding step
step-sync block next pins e = ground arith

-- The levels that the state machines see at a pin of the window: those of two clocks before, unless
-- the pin bypasses the synchroniser, in which case those of this clock.
pub step-step_visible :
    (b₀ b₁ b₂ : PioBlock) (pins₀ pins₁ pins₂ p : ℕ)
    → p < 32
    → step b₀ pins₀ ≡ ok b₁
    → step b₁ pins₁ ≡ ok b₂
    → bit (visible_levels b₂ (pins₂ % 2 ^ 32)) p
      ≡ (if bit b₀.input_sync_bypass p then bit pins₂ p else bit pins₀ p)
step-step_visible b₀ b₁ b₂ pins₀ pins₁ pins₂ p h e₀ e₁ =
    let first = step-sync b₀ b₁ pins₀ e₀ in
    let second = step-sync b₁ b₂ pins₁ e₁ in
    let bypass : b₂.input_sync_bypass ≡ b₀.input_sync_bypass = second.2 ∙ first.2 in
    let delayed : b₂.sync2 ≡ pins₀ % 2 ^ 32 = second.1 ∙ first.0 in
    bit-visible_levels b₂ (pins₂ % 2 ^ 32) p
    ∙ rw (bypass, delayed) (ground (arith, bit-mod 32 pins₂ p, bit-mod 32 pins₀ p))

side_write-eq :
    (core written : Core) (instr value : ℕ)
    → side_write core instr ≡ ok written
    → side_set core.sm.config instr ≡ ok (some value)
    → let c = core.sm.config in
      written.block ≡ write_pins c.sideset_base c.sideset_count value c.sideset_pindir core.block
unfolding side_write
side_write-eq core written instr value e side = ground arith

bit-write_pins :
    (base count value i : ℕ) (dirs : Bool) (block : Shared)
    → count ≤ 32
    → i < count
    → let written = write_pins base count value dirs block in
      bit (if dirs then written.oe else written.out) ((base + i) % 32) ≡ bit value i
unfolding write_pins
bit-write_pins base count value i true block h k = bit-write_levels base count value block.oe i h k
bit-write_pins base count value i false block h k =
    bit-write_levels base count value block.out i h k

-- Where an instruction and its side-set drive the same pin in one cycle, the side-set wins: after the
-- issue by a well-formed state machine, each of the side-set pins has its bit of the side-set value,
-- in the levels or the directions, whatever the instruction was.
pub issue-side :
    (core core' : Core) (instr : ℕ) (source : Source) (visible value i : ℕ)
    → IsValid core.sm
    → IsShared core.block
    → issue core instr source visible ≡ ok core'
    → side_set core.sm.config instr ≡ ok (some value)
    → core.sm.config.sideset_count ≤ 32
    → i < core.sm.config.sideset_count
    → bit
        (if core.sm.config.sideset_pindir then core'.block.oe else core'.block.out)
        ((core.sm.config.sideset_base + i) % 32)
      ≡ bit value i
unfolding issue
issue-side core core' instr source visible value i v s e side fits k =
    let (ended, run, e₁) = >>=-eq-ok (execute core instr visible) _ e in
    let (written, wrote, e₂) = >>=-eq-ok (side_write ended.0 instr) _ e₁ in
    let (sm, settled, e₃) =
      >>=-eq-ok (settle source instr ended.1 ended.2 (pull_after instr written.sm)) _ e₂ in
    let sound = subst (Sound core) run (execute-Sound core v s instr visible) in
    let config = sound.configured in
    let driven = side_write-eq ended.0 written instr value wrote (rw config side) in
    let block : core'.block ≡ written.block = cc in
    let c = core.sm.config in
    rw (block, driven, config)
      (bit-write_pins c.sideset_base c.sideset_count value i c.sideset_pindir ended.0.block fits k)

-- A read of the pins through IN_BASE sees pin `in_base + i` of the window in its bit `i`.
pub bit-pins_in :
    (core : Core) (visible i : ℕ)
    → visible < 2 ^ 32
    → i < 32
    → core.block.rp2350 ≡ false
    → bit (pins_in core visible) i ≡ bit visible ((core.sm.config.in_base + i) % 32)
unfolding pins_in
bit-pins_in core visible i h k old = rw old (bit-rotate_right visible core.sm.config.in_base i h k)
