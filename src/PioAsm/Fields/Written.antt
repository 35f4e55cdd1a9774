-- ===== src/PioAsm/Fields/Written.antt =====
-- What `side` and `delay` of host/pio/asm.py write, the simulator of host/pio/sim.py reads back.
use ttihp_protocol_emulator.Prelude.{
  ℕ, ◌+◌, ◌-◌, ◌*◌, ◌/◌, ◌%◌, ◌^◌, ◌<◌, ◌≤◌, bit_or, Bool, true, not, some, List, [], ◌∷◌, ◌++◌,
  ◌≡◌, sym, ap, ◌∙◌, subst, arith, to_ℕ, ◌||◌,
}
use ttihp_protocol_emulator.Prelude.Bits.{bit}
use ttihp_protocol_emulator.Prelude.Widths.{pow_add}
use ttihp_protocol_emulator.Prelude.Results.{ok, ◌>>=◌, >>=-eq-ok}
use ttihp_protocol_emulator.Pio.{StateMachineConfig}
use ttihp_protocol_emulator.Pio.Helpers.{side_bits, side_set, delay_of}
use ttihp_protocol_emulator.PioAsm.{Emit, or_last, or_word, side, delay}
use ttihp_protocol_emulator.PioAsm.Fields.{
  side_field, whole_field, mod_small, delay_fits, field_reads, or_assoc, or_scaled, or_field,
  or_last-append,
}

-- the bits that `side` ors into the word
abbrev side_word : Bool → ℕ → ℕ → ℕ
side_word optional s value = bit_or (to_ℕ optional * 2 ^ 12) (value * 2 ^ (13 - s))

side_word-field :
    (optional : Bool) (s value : ℕ)
    → s ≤ 5
    → side_word optional s value ≡ side_field optional s value * 2 ^ 8
side_word-field optional s value h =
    let enable : to_ℕ optional * 2 ^ 12 ≡ to_ℕ optional * 16 * 2 ^ 8 = omega arith in
    let place : 13 - s ≡ (5 - s) + 8 = omega arith in
    let power : 2 ^ (13 - s) ≡ 2 ^ (5 - s) * 2 ^ 8 = ap (λ k. 2 ^ k) place ∙ pow_add (5 - s) 8 in
    let moved : value * 2 ^ (13 - s) ≡ value * 2 ^ (5 - s) * 2 ^ 8 =
      ap (λ m. value * m) power ∙ grind arith in
    rw (enable, moved) (or_scaled 8 (to_ℕ optional * 16) (value * 2 ^ (5 - s)))

-- What is known once `side` has returned.
record Sided (ws : List ℕ) (w value : ℕ) (e mid : Emit) : Type 0 where
  some_bits : 0 < e.sideset_count
  value_fits : value < 2 ^ e.sideset_count
  written : mid.instrs ≡ ws ++ bit_or w (side_word e.sideset_opt e.sideset_count value) ∷ []
  same_pass : mid.pass_no ≡ e.pass_no
  same_delay : mid.delay_max ≡ e.delay_max

side-Sided :
    (e mid : Emit) (ws : List ℕ) (w value : ℕ)
    → 0 < e.pass_no
    → e.instrs ≡ ws ++ w ∷ []
    → side value e ≡ ok mid
    → Sided ws w value e mid
unfolding side or_word
side-Sided e mid ws w value later last run =
    let bits = side_word e.sideset_opt e.sideset_count value in
    let write = ap (λ l. or_last bits l) last ∙ or_last-append bits ws w in ground (arith, write)

delay-written :
    (e e' : Emit) (ws : List ℕ) (w n : ℕ)
    → 0 < e.pass_no
    → e.instrs ≡ ws ++ w ∷ []
    → delay n e ≡ ok e'
    → (n ≤ e.delay_max) × (e'.instrs ≡ ws ++ bit_or w (n * 2 ^ 8) ∷ [])
unfolding delay or_word
delay-written e e' ws w n later last run =
    let write = ap (λ l. or_last (n * 2 ^ 8) l) last ∙ or_last-append (n * 2 ^ 8) ws w in
    (ground (arith, write), ground (arith, write))

-- A word with the field `f` is read as the field says.
fields_read :
    (c : StateMachineConfig) (w f value n : ℕ)
    → 0 < side_bits c
    → side_bits c ≤ 5
    → w / 2 ^ 8 % 32 ≡ 0
    → f < 32
    → f % 2 ^ (5 - side_bits c) ≡ n
    → f / 2 ^ (5 - side_bits c) % 2 ^ c.sideset_count ≡ value
    → (not c.sideset_opt || bit f 4) ≡ true
    → (side_set c (w + f * 2 ^ 8) ≡ ok (some value)) × (delay_of c (w + f * 2 ^ 8) ≡ ok n)
unfolding side_set delay_of
fields_read c w f value n some_bits fits clear small low high enabled =
    let field : (w + f * 2 ^ 8) / 2 ^ 8 % 32 ≡ f = omega arith in
    let delayed : (w + f * 2 ^ 8) / 2 ^ 8 % 2 ^ (5 - side_bits c) ≡ n =
      sym (mod_small ((w + f * 2 ^ 8) / 2 ^ 8) (5 - side_bits c) (omega arith))
      ∙ ap (λ m. m % 2 ^ (5 - side_bits c)) field
      ∙ low in
    (rw field (ground arith), ground (arith, delayed))

-- In the second pass, once `side(value)` and then a delay of `n` have returned after an instruction, the
-- last word has the opcode and the low byte of that instruction, and the simulator, configured with
-- the same side-set bits, reads from it the delay `n` and the value modulo 2 ^ (data bits). So the value is
-- kept where it has no more than the data bits; with an enable bit, `side` accepts one bit more.
pub side-delay :
    (c : StateMachineConfig) (e e' : Emit) (ws : List ℕ) (w value n : ℕ)
    → 0 < e.pass_no
    → e.sideset_count ≡ side_bits c
    → e.sideset_opt ≡ c.sideset_opt
    → e.delay_max ≡ 31 / 2 ^ e.sideset_count
    → e.sideset_count ≤ 5
    → e.instrs ≡ ws ++ w ∷ []
    → w / 2 ^ 8 % 32 ≡ 0
    → (side value e >>= delay n) ≡ ok e'
    → (w' : ℕ) × (e'.instrs ≡ ws ++ w' ∷ [])
      × (side_set c w' ≡ ok (some (value % 2 ^ c.sideset_count)))
      × (delay_of c w' ≡ ok n)
      × (w' % 256 ≡ w % 256)
      × (w' / 2 ^ 13 ≡ w / 2 ^ 13)
side-delay c e e' ws w value n later counts optional longest fits last clear run =
    let s = e.sideset_count in
    let o = e.sideset_opt in
    let f = whole_field o s value n in
    let (mid, first, second) = >>=-eq-ok (side value e) (delay n) run in
    let sided = side-Sided e mid ws w value later last first in
    let delayed =
      delay-written mid e' ws (bit_or w (side_word o s value)) n
        (subst (λ k. 0 < k) (sym sided.same_pass) later) sided.written second in
    let short : n ≤ 31 / 2 ^ s = subst (λ m. n ≤ m) (sided.same_delay ∙ longest) delayed.0 in
    let read =
      field_reads o s value n sided.some_bits fits sided.value_fits (delay_fits s n fits short) in
    let joined : bit_or (bit_or w (side_word o s value)) (n * 2 ^ 8) ≡ w + f * 2 ^ 8 =
      or_assoc w (side_word o s value) (n * 2 ^ 8)
      ∙ ap (λ m. bit_or w (bit_or m (n * 2 ^ 8))) (side_word-field o s value fits)
      ∙ ap (λ m. bit_or w m) (or_scaled 8 (side_field o s value) n)
      ∙ or_field w f clear read.0 in
    let data_bits : s - to_ℕ o ≡ c.sideset_count = rw (counts, optional) (omega arith) in
    let fields =
      fields_read c w f (value % 2 ^ c.sideset_count) n (subst (λ k. 0 < k) counts sided.some_bits)
        (subst (λ k. k ≤ 5) counts fits) clear read.0
        (subst (λ k. f % 2 ^ (5 - k) ≡ n) counts read.1)
        (subst (λ k. f / 2 ^ (5 - k) % 2 ^ c.sideset_count ≡ value % 2 ^ c.sideset_count) counts
          (subst (λ k. f / 2 ^ (5 - s) % 2 ^ k ≡ value % 2 ^ k) data_bits read.2))
        (subst (λ b. (not b || bit f 4) ≡ true) optional read.3) in
    (
      w + f * 2 ^ 8,
      delayed.1 ∙ ap (λ m. ws ++ m ∷ []) joined,
      fields.0,
      fields.1,
      omega arith,
      omega (arith, read.0, clear),
    )
