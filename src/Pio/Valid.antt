-- ===== src/Pio/Valid.antt =====
-- A well-formed state machine of host/pio/sim.py: its registers are words of 32 bits, its PC an address
-- and its FIFOs within their depths.
pub mod Opcodes
pub mod Cycles
pub mod Runs
use Prim.Native.Nat.{min}
use native.Mathlib.Nat.{mod-le, div-le_self, mod-lt, pow-succ'}
use ttihp_protocol_emulator.Prelude.{
  ℕ, zero, suc, ◌+◌, ◌-◌, ◌*◌, ◌/◌, ◌%◌, ◌^◌, ◌≤◌, ◌<◌, bit_or, Bool, true, false, List, [], ◌∷◌,
  ◌++◌, length, nonempty, popleft, get_or, leb, ltb, ◌==◌, if◌then◌else◌, nonzero, ◌≡◌, refl, arith,
  ◌&&◌, not, ◌||◌, to_ℕ,
}
use ttihp_protocol_emulator.Prelude.Bits.{bit}
use ttihp_protocol_emulator.Prelude.Widths.{bit_or-lt, put_bit-lt, pow_positive}
use ttihp_protocol_emulator.Prelude.Results.{Result, ok, raise, ◌>>=◌}
use ttihp_protocol_emulator.Pio
use ttihp_protocol_emulator.Pio.{
  StateMachineConfig, StateMachine, Shared, Core, PioError, tx_depth, rx_depth, masked, m32,
  rotate_right, reversed, bit_reverse,
}
use ttihp_protocol_emulator.Pio.Helpers.{
  side_bits, status, pins_in, write_levels, write_pins, irq_index, refill, background_pull,
  shift_out, shift_in_value, shift_count,
}

abbrev pub Words : List ℕ → Type 0
Words [] = Unit
Words (w ∷ ws) = (w < 2 ^ 32) × Words ws

pub record IsConfigured (c : StateMachineConfig) : Type 0 where
  pub wraps : c.wrap_bottom < 32
  pub sides : side_bits c ≤ 5

pub record IsValid (sm : StateMachine) : Type 0 where
  pub address : sm.pc < 32
  pub x_word : sm.x < 2 ^ 32
  pub y_word : sm.y < 2 ^ 32
  pub isr_word : sm.isr < 2 ^ 32
  pub osr_word : sm.osr < 2 ^ 32
  pub isr_bits : sm.isr_count ≤ 32
  pub osr_bits : sm.osr_count ≤ 32
  pub tx_fits : length sm.tx ≤ tx_depth sm.config
  pub rx_fits : length sm.rx ≤ rx_depth sm.config
  pub tx_words : Words sm.tx
  pub rx_words : Words sm.rx

pub record IsShared (block : Shared) : Type 0 where
  pub memory : length block.mem ≡ 32
  pub flags : block.irq < 2 ^ 8
  pub levels : block.out < 2 ^ 32
  pub enables : block.oe < 2 ^ 32

-- The errors that the module raises itself.
abbrev pub IsNamed : PioError → Type 0
IsNamed PioError.index_error = ⊥
IsNamed PioError.negative_shift = ⊥
IsNamed _ = Unit

-- A value with `P`, or a named error.
abbrev pub Gives {ℓ} : {A : Type ℓ} → (A → Type 0) → Result PioError A → Type 0
Gives P (ok a) = P a
Gives P (raise e) = IsNamed e

pub Gives-bind {ℓ κ} :
    {A : Type ℓ} (Mid : A → Type 0) {B : Type κ} (End : B → Type 0) (call : Result PioError A)
    (rest : A → Result PioError B)
    → Gives Mid call
    → ((a : A) → Mid a → Gives End (rest a))
    → Gives End (call >>= rest)
Gives-bind Mid End (raise e) rest named later = named
Gives-bind Mid End (ok a) rest holds later = later a holds

pub Words-append : (ws : List ℕ) (w : ℕ) → Words ws → w < 2 ^ 32 → Words (ws ++ w ∷ [])
Words-append [] w h k = (k, tt)
Words-append (v ∷ ws) w h k = (h.0, Words-append ws w h.1 k)

pub Words-popleft : (ws : List ℕ) → Words ws → Words (popleft ws)
Words-popleft [] h = tt
Words-popleft (w ∷ ws) h = h.1

pub get_or-lt : (ws : List ℕ) → Words ws → get_or ws 0 0 < 2 ^ 32
get_or-lt [] h = omega arith
get_or-lt (w ∷ ws) h = h.0

pub length-popleft-le : (ws : List ℕ) → length (popleft ws) ≤ length ws
length-popleft-le [] = omega arith
length-popleft-le (w ∷ ws) = omega arith

pub masked-lt : (value n : ℕ) → value < 2 ^ 32 → masked value n < 2 ^ 32
masked-lt value n h = omega (arith, mod-le value (2 ^ (if leb 32 n then 32 else n)))

pub rotate_right-lt : (value n : ℕ) → rotate_right value n < 2 ^ 32
unfolding rotate_right
rotate_right-lt value n = ground arith

pub pins_in-lt : (core : Core) (visible : ℕ) → pins_in core visible < 2 ^ 32
unfolding pins_in
pins_in-lt core visible = ground (
  arith,
  rotate_right-lt visible core.sm.config.in_base,
  masked-lt (rotate_right visible core.sm.config.in_base) core.sm.config.in_count,
)

reversed-lt : (value n : ℕ) → reversed value n < 2 ^ n
unfolding reversed
reversed-lt value zero = omega arith
reversed-lt value (suc n) =
    let twice : 2 ^ suc n ≡ 2 * 2 ^ n = pow-succ' 2 n in
    bit_or-lt (suc n) (reversed value n * 2) (to_ℕ (bit value n))
      (omega (arith, twice, reversed-lt value n)) (ground (arith, twice, pow_positive n))

pub bit_reverse-lt : (value : ℕ) → bit_reverse value < 2 ^ 32
unfolding bit_reverse
bit_reverse-lt value = reversed-lt value 32

pub write_levels-lt : (base n value reg : ℕ) → reg < 2 ^ 32 → write_levels base n value reg < 2 ^ 32
unfolding write_levels
write_levels-lt base zero value reg h = h
write_levels-lt base (suc n) value reg h =
    put_bit-lt 32 (write_levels base n value reg) ((base + n) % 32) (bit value n)
      (write_levels-lt base n value reg h) (omega arith)

pub write_pins-IsShared :
    (base n value : ℕ) (dirs : Bool) (block : Shared)
    → IsShared block
    → IsShared (write_pins base n value dirs block)
unfolding write_pins
write_pins-IsShared base n value dirs block v =
    ground (arith, write_levels-lt base n value block.out, write_levels-lt base n value block.oe)

pub irq_index-Gives : (core : Core) (index : ℕ) → Gives (λ flag. flag < 8) (irq_index core index)
unfolding irq_index
irq_index-Gives core index =
    ground (arith, bit_or-lt 3 (to_ℕ (bit index 2) * 4) ((index + core.sm.index) % 4))

pub status-Gives : (core : Core) → Gives (λ value. value < 2 ^ 32) (status core)
unfolding status
status-Gives core = ground arith

pub refill-IsValid : (sm : StateMachine) → IsValid sm → IsValid (refill sm)
unfolding refill
refill-IsValid sm v = ground (arith, get_or-lt sm.tx, Words-popleft sm.tx, length-popleft-le sm.tx)

pub background_pull-IsValid : (sm : StateMachine) → IsValid sm → IsValid (background_pull sm)
unfolding background_pull
background_pull-IsValid sm v = ground (arith, refill-IsValid sm v)

pub shift_out-IsValid :
    (sm : StateMachine) (n : ℕ)
    → IsValid sm
    → IsValid (shift_out sm n).0 × ((shift_out sm n).1 < 2 ^ 32)
unfolding shift_out
shift_out-IsValid sm n v = ground (
  arith,
  masked-lt sm.osr (shift_count n),
  masked-lt (sm.osr / 2 ^ (32 - shift_count n)) (shift_count n),
  div-le_self sm.osr (2 ^ (32 - shift_count n)),
  div-le_self sm.osr (2 ^ shift_count n),
)

pub shift_in_value-lt :
    (sm : StateMachine) (value n : ℕ)
    → ((shift_in_value sm value n).0 < 2 ^ 32) × ((shift_in_value sm value n).1 ≤ 32)
unfolding shift_in_value
shift_in_value-lt sm value n = ground arith
