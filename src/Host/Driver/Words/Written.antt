-- ===== src/Host/Driver/Words/Written.antt =====
-- `write_word` of host/pe_host/host.py, seen by a port with a log: the nibbles that the chip takes, and
-- the number of cycles.
use ttihp_protocol_emulator.Prelude.{
  ℕ, zero, suc, ◌+◌, ◌*◌, ◌/◌, ◌%◌, ◌^◌, ◌<◌, bit_xor, Bool, true, false, not, ◌&&◌, ◌||◌, Option,
  none, some, List, [], ◌∷◌, append-nil, ltb, ◌==◌, if◌then◌else◌, ◌≡◌, refl, sym, subst, arith,
  inl, inr, Bool-cases,
}
use ttihp_protocol_emulator.Prelude.Results.{Result, ok, raise}
use ttihp_protocol_emulator.Host.{HostError, nibbles}
use ttihp_protocol_emulator.Host.Driver.{
  Port, Settings, Host, tick, set_window, bounce, offer, write_ui, send, enter, leave, write_word,
}
use ttihp_protocol_emulator.Host.Driver.Words.{
  Log, logged, taken, idle-bits, write_byte, Adds, Adds-trans, Adds-weaken, tick-log, offer-Adds,
}

-- the nibbles of a word from the nibble `n` on
abbrev from : ℕ → ℕ → ℕ → List ℕ
from word n zero = []
from word n (suc left) = word / 2 ^ (4 * n) % 16 ∷ from word (suc n) left

from-nibbles : (word : ℕ) → from word 0 8 ≡ nibbles word
unfolding nibbles
from-nibbles word = refl

module _ {P : Type 0} (port : Port P) where
  -- a cycle with neither valid nor ready
  idle-Adds :
      (window : ℕ) (h : Host (P × Log))
      → Adds 1 [] h.port.1 (tick (logged port) (window * 2 ^ 6) h).port.1
  unfolding taken
  idle-Adds window h = record {
    piece = (window * 2 ^ 6, (tick (logged port) (window * 2 ^ 6) h).uo) ∷ [];
    added = tick-log port (window * 2 ^ 6) h;
    took = rw (idle-bits window).0 refl;
    within = omega arith;
  }

  enter-Adds :
      (window : ℕ) (h : Host (P × Log)) → Adds 1 [] h.port.1 (enter (logged port) window h).1.port.1
  unfolding enter taken
  enter-Adds window h = elim (Bool-cases (h.window == window)) [
    | inl same ↦
        rw same
          (record { piece = []; added = sym (append-nil _); took = refl; within = omega arith })
    | inr other ↦ rw other (idle-Adds window (record h { window = window }))
  ]

  bounce-Adds : (h : Host (P × Log)) → Adds 1 [] h.port.1 (bounce (logged port) h).port.1
  unfolding bounce set_window taken
  bounce-Adds h = elim (Bool-cases (h.window == bit_xor h.window 1)) [
    | inl same ↦
        rw same
          (record { piece = []; added = sym (append-nil _); took = refl; within = omega arith })
    | inr other ↦
        rw other (idle-Adds (bit_xor h.window 1) (record h { window = bit_xor h.window 1 }))
  ]

  -- A result of `send`: all nibbles, or the time-out with some of them.
  abbrev Sent : ℕ → ℕ → ℕ → ℕ → Log → Result HostError (Option ℕ) × Host (P × Log) → Type 0
  Sent word n left timeout before (ok _, h') =
      Adds (left * timeout) (from word n left) before h'.port.1
  Sent word n left timeout before (raise e, h') =
      (e ≡ HostError.host_timeout)
      × ((k : ℕ) × (k < left) × Adds (left * timeout + 1) (from word n k) before h'.port.1)

  more_rounds : (left timeout : ℕ) → suc left * timeout ≡ timeout + left * timeout
  more_rounds left timeout = grind arith

  Sent-cons :
      (word n left timeout : ℕ) {a b : Log}
      → Adds timeout (word / 2 ^ (4 * n) % 16 ∷ []) a b
      → (r : Result HostError (Option ℕ) × Host (P × Log)) → Sent word (suc n) left timeout b r
      → Sent word n (suc left) timeout a r
  Sent-cons word n left timeout one (ok _, h') s =
      Adds-weaken (omega (arith, more_rounds left timeout)) (Adds-trans one s)
  Sent-cons word n left timeout one (raise e, h') (e_is, (k, short, s)) = (
    e_is,
    (suc k, omega arith, Adds-weaken (omega (arith, more_rounds left timeout)) (Adds-trans one s)),
  )

  send-Sent :
      (left n timeout window word : ℕ) (first : Option ℕ) (h : Host (P × Log))
      → Sent word n left timeout h.port.1 (send (logged port) left n timeout window word first h)
  unfolding send taken
  send-Sent zero n timeout window word first h = record {
    piece = [];
    added = sym (append-nil _);
    took = refl;
    within = omega arith;
  }
  send-Sent (suc left) n timeout window word first h =
      let o = offer (logged port) timeout (write_ui port window word n) first h in
      let nibble = word / 2 ^ (4 * n) % 16 in
      let byte = write_byte window nibble (omega arith) in
      let one =
        offer-Adds port timeout (write_ui port window word n) nibble first h byte.0 byte.1 in
      let told = λ (b : Bool) (e : o.0 ≡ b).
        subst (λ b. Adds timeout (if b then nibble ∷ [] else []) h.port.1 o.2.port.1) e one in
      elim (Bool-cases o.0) [
        | inl done ↦ rw done (
            Sent-cons word n left timeout (told true done) _
              (send-Sent left (suc n) timeout window word o.1 o.2))
        | inr late ↦ rw late (
          refl,
          (
            0,
            omega arith,
            Adds-weaken (omega (arith, more_rounds left timeout))
                (Adds-trans (told false late) (bounce-Adds o.2)),
          ),
        )
      ]

  -- The outcome of `write_word`.
  abbrev pub Wrote : ℕ → ℕ → Log → Result HostError ℕ × Host (P × Log) → Type 0
  Wrote word timeout before (ok _, h') = Adds (8 * timeout + 2) (nibbles word) before h'.port.1
  Wrote word timeout before (raise e, h') =
      (e ≡ HostError.host_timeout)
      × ((k : ℕ) × (k < 8) × Adds (8 * timeout + 2) (from word 0 k) before h'.port.1)

  -- what `write_word` does with the outcome of `send`
  abbrev finished :
      ℕ → Result HostError (Option ℕ) × Host (P × Log) → Result HostError ℕ × Host (P × Log)
  finished window (r, h) = elim r [
    | ok first ↦ leave (logged port) window first h
    | raise e ↦ (raise e, h)
  ]

  finished-Wrote :
      (word timeout window : ℕ) {a b : Log}
      → Adds 1 [] a b
      → (r : Result HostError (Option ℕ) × Host (P × Log)) → Sent word 0 8 timeout b r
      → Wrote word timeout a (finished window r)
  unfolding leave nibbles
  finished-Wrote word timeout window start (ok first, h) s =
      let kept = record h { first_uo = elim first as (λ _. ℕ) [ none ↦ 0 | some uo ↦ uo ] } in
      Adds-weaken (omega arith) (Adds-trans start (Adds-trans s (idle-Adds window kept)))
  finished-Wrote word timeout window start (raise e, h) (e_is, (k, short, s)) =
      (e_is, (k, short, Adds-weaken (omega arith) (Adds-trans start s)))

  -- A write of a word of 32 bits to a window below 3, with a time-out of at least one cycle, on any port:
  -- it takes at most 8 (time-out) + 2 cycles. If it returns, the chip took in them exactly the eight nibbles of the
  -- word, the lowest first. Otherwise it raises HostTimeout, and the chip took the first `k` nibbles, k < 8.
  pub write_word-Wrote :
      (cfg : Settings) (window word timeout : ℕ) (h : Host (P × Log))
      → window < 3
      → word < 2 ^ 32
      → 0 < timeout
      → Wrote word timeout h.port.1 (write_word (logged port) cfg window word (some timeout) h)
  unfolding write_word
  write_word-Wrote cfg window word timeout h p q t =
      let allowed : (not (ltb window 3 && ltb word (2 ^ 32)) || ltb timeout 1) ≡ false =
        ground arith in
      let start = enter (logged port) window h in
      rw allowed (
        finished-Wrote word timeout window (enter-Adds window h) _
          (send-Sent 8 0 timeout window word start.0 start.1))
