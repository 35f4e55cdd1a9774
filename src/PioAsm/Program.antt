-- ===== src/PioAsm/Program.antt =====
-- `from_program` of host/pio/sim.py on a program that host/pio/asm.py assembled: the shift control that
-- the simulator decodes is that which the assembler's options ask for.
use ttihp_protocol_emulator.Prelude.{
  ℕ, ◌+◌, ◌*◌, ◌/◌, ◌%◌, ◌^◌, ◌<◌, ◌≤◌, bit_or, Bool, true, false, List, [], ◌∷◌, ◌≡◌, refl, ap,
  ◌∙◌, subst, arith, ◌==◌, if◌then◌else◌, to_ℕ,
}
use ttihp_protocol_emulator.Prelude.Bits.{bit}
use ttihp_protocol_emulator.Prelude.Widths.{bit_or_sum, bit_or_comm, bit-digit}
use ttihp_protocol_emulator.Prelude.Results.{ok, >>=-eq-ok}
use ttihp_protocol_emulator.Pio.{StateMachineConfig, default_config}
use ttihp_protocol_emulator.PioAsm.{
  Options, Emit, init_count, shift_control, new_emit, wrap_target, wrap, side_mode, start_first,
  start_second, or_word, delay, side, label, append_word, word,
}
use ttihp_protocol_emulator.PioAsm.Passes.{Call, labels, call, body, asm_pio}

-- `x or 32`
abbrev or_32 : ℕ → ℕ
or_32 n = if n == 0 then 32 else n

-- `from_program(prog, offset, rp2350)`, before the overrides of `kw`
unfoldable pub from_program : Emit → ℕ → Bool → StateMachineConfig
from_program prog offset rp2350 =
    let execctrl = prog.execctrl in
    let shiftctrl = prog.shiftctrl in
    record default_config {
      wrap_bottom = execctrl / 2 ^ 7 % 32 + offset;
      wrap_top = execctrl / 2 ^ 12 % 32 + offset;
      sideset_count = init_count prog.options.sideset_init;
      sideset_opt = bit execctrl 30;
      sideset_pindir = bit execctrl 29;
      status_sel = if rp2350 then execctrl / 2 ^ 5 % 4 else execctrl / 2 ^ 4 % 2;
      status_n = if rp2350 then execctrl % 32 else execctrl % 16;
      in_shift_right = bit shiftctrl 18;
      out_shift_right = bit shiftctrl 19;
      autopush = bit shiftctrl 16;
      autopull = bit shiftctrl 17;
      push_thresh = or_32 (shiftctrl / 2 ^ 20 % 32);
      pull_thresh = or_32 (shiftctrl / 2 ^ 25 % 32);
      fjoin_tx = bit shiftctrl 30;
      fjoin_rx = bit shiftctrl 31;
    }

-- a field below those that are there already
or_below :
    (p x a : ℕ) {base old : ℕ} → old ≡ base → base ≡ x * 2 ^ p → a < 2 ^ p → bit_or old a ≡ base + a
or_below p x a {base} {old} e whole h =
    ap (λ n. bit_or n a) (e ∙ whole)
    ∙ bit_or_comm (x * 2 ^ p) a
    ∙ bit_or_sum p a x h
    ∙ omega (arith, whole)

pub record IsMeant (o : Options) : Type 0 where
  pub in_bit : o.in_shiftdir < 2
  pub out_bit : o.out_shiftdir < 2
  pub join : o.fifo_join < 4
  pub push_some : 0 < o.push_thresh
  pub push_most : o.push_thresh ≤ 32
  pub pull_some : 0 < o.pull_thresh
  pub pull_most : o.pull_thresh ≤ 32

to_ℕ-lt : (b : Bool) → to_ℕ b < 2
to_ℕ-lt true = omega arith
to_ℕ-lt false = omega arith

shift_control-sum :
    (o : Options)
    → IsMeant o
    → shift_control o
      ≡ o.fifo_join * 2 ^ 30
        + o.pull_thresh % 32 * 2 ^ 25
        + o.push_thresh % 32 * 2 ^ 20
        + o.out_shiftdir * 2 ^ 19
        + o.in_shiftdir * 2 ^ 18
        + to_ℕ o.autopull * 2 ^ 17
        + to_ℕ o.autopush * 2 ^ 16
unfolding shift_control
shift_control-sum o m =
    let j = o.fifo_join in
    let l = o.pull_thresh % 32 in
    let s = o.push_thresh % 32 in
    let x₁ = or_below 30 j (l * 2 ^ 25) {base = j * 2 ^ 30} refl refl (omega arith) in
    let x₂ = or_below 25 (j * 32 + l) (s * 2 ^ 20) x₁ (omega arith) (omega arith) in
    let x₃ =
      or_below 20 ((j * 32 + l) * 32 + s) (o.out_shiftdir * 2 ^ 19) x₂ (omega arith)
        (omega arith) in
    let x₄ =
      or_below 19 (((j * 32 + l) * 32 + s) * 2 + o.out_shiftdir) (o.in_shiftdir * 2 ^ 18) x₃
        (omega arith) (omega arith) in
    let x₅ =
      or_below 18 ((((j * 32 + l) * 32 + s) * 2 + o.out_shiftdir) * 2 + o.in_shiftdir)
        (to_ℕ o.autopull * 2 ^ 17) x₄ (omega arith) (omega (arith, to_ℕ-lt o.autopull)) in
    or_below 17
      (((((j * 32 + l) * 32 + s) * 2 + o.out_shiftdir) * 2 + o.in_shiftdir) * 2 + to_ℕ o.autopull)
      (to_ℕ o.autopush * 2 ^ 16) x₅ (omega arith) (omega (arith, to_ℕ-lt o.autopush))

call-shiftctrl :
    (c : Call) (e e' : Emit)
    → call c e ≡ ok e'
    → (e'.shiftctrl ≡ e.shiftctrl) × (e'.options ≡ e.options)
unfolding call wrap_target wrap label word append_word side delay or_word
call-shiftctrl (labels name) e e' h = (ground arith, ground arith)
call-shiftctrl c e e' h = (ground arith, ground arith)

body-shiftctrl :
    (cs : List Call) (e e' : Emit)
    → body cs e ≡ ok e'
    → (e'.shiftctrl ≡ e.shiftctrl) × (e'.options ≡ e.options)
unfolding body
body-shiftctrl [] e e' h =
    let end : e ≡ e' = cc in
    subst (λ (e' : Emit). (e'.shiftctrl ≡ e.shiftctrl) × (e'.options ≡ e.options)) end (refl, refl)
body-shiftctrl (c ∷ cs) e e' h =
    let (mid, first, rest) = >>=-eq-ok (call c e) (body cs) h in
    let one = call-shiftctrl c e mid first in
    let more = body-shiftctrl cs mid e' rest in (more.0 ∙ one.0, more.1 ∙ one.1)

start_second-shiftctrl :
    (e e' : Emit) → start_second e ≡ ok e' → (e'.shiftctrl ≡ e.shiftctrl) × (e'.options ≡ e.options)
unfolding start_second wrap side_mode
start_second-shiftctrl e e' h = (ground arith, ground arith)

asm_pio-shiftctrl :
    (o : Options) (cs : List Call) (e : Emit)
    → asm_pio o cs ≡ ok e
    → (e.shiftctrl ≡ shift_control o) × (e.options ≡ o)
unfolding asm_pio start_first new_emit
asm_pio-shiftctrl o cs e run =
    let (first, one, later) = >>=-eq-ok (body cs (start_first (new_emit o))) _ run in
    let (second, two, three) = >>=-eq-ok (start_second first) _ later in
    let a = body-shiftctrl cs (start_first (new_emit o)) first one in
    let b = start_second-shiftctrl first second two in
    let c = body-shiftctrl cs second e three in (c.0 ∙ b.0 ∙ a.0, c.1 ∙ b.1 ∙ a.1)

-- What the simulator's configuration takes from the shift control of an assembled program is what the
-- options of the program say: the directions, autopush and autopull, the thresholds from 1 to 32, and
-- the join of the FIFOs, a bit for each.
pub from_program-asm_pio :
    (o : Options) (cs : List Call) (e : Emit) (offset : ℕ) (rp2350 : Bool)
    → IsMeant o
    → asm_pio o cs ≡ ok e
    → let c = from_program e offset rp2350 in
      (c.in_shift_right ≡ (o.in_shiftdir == 1))
      × (c.out_shift_right ≡ (o.out_shiftdir == 1))
      × (c.autopush ≡ o.autopush)
      × (c.autopull ≡ o.autopull)
      × (c.push_thresh ≡ o.push_thresh)
      × (c.pull_thresh ≡ o.pull_thresh)
      × (c.fjoin_tx ≡ bit o.fifo_join 0)
      × (c.fjoin_rx ≡ bit o.fifo_join 1)
      × (c.sideset_count ≡ init_count o.sideset_init)
unfolding from_program
from_program-asm_pio o cs e offset rp2350 m run =
    let kept = asm_pio-shiftctrl o cs e run in
    let sum : e.shiftctrl
        ≡ o.fifo_join * 2 ^ 30
          + o.pull_thresh % 32 * 2 ^ 25
          + o.push_thresh % 32 * 2 ^ 20
          + o.out_shiftdir * 2 ^ 19
          + o.in_shiftdir * 2 ^ 18
          + to_ℕ o.autopull * 2 ^ 17
          + to_ℕ o.autopush * 2 ^ 16 =
      kept.0 ∙ shift_control-sum o m in
    (
      bit-digit e.shiftctrl 18 ∙ ground arith,
      bit-digit e.shiftctrl 19 ∙ ground arith,
      bit-digit e.shiftctrl 16 ∙ ground arith,
      bit-digit e.shiftctrl 17 ∙ ground arith,
      ground arith,
      ground arith,
      bit-digit e.shiftctrl 30 ∙ ground (arith, bit-digit o.fifo_join 0),
      bit-digit e.shiftctrl 31 ∙ ground (arith, bit-digit o.fifo_join 1),
      ap (λ (o : Options). init_count o.sideset_init) kept.1,
    )
