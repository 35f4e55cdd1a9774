-- ===== src/Host/Driver/Words/Received.antt =====
-- `read_word` of host/pe_host/host.py, seen by a port with a log: the word that it returns is made of the
-- nibbles that the chip gave.
use ttihp_protocol_emulator.Prelude.{
  ℕ, zero, suc, ◌+◌, ◌*◌, ◌%◌, ◌^◌, ◌<◌, ◌≤◌, bit_or, bit_xor, Bool, true, false, not, ◌||◌, some,
  List, [], ◌∷◌, ◌++◌, get_or, length, length-append, append-nil, append_assoc, ltb, ◌==◌,
  if◌then◌else◌, ◌≡◌, refl, sym, ap, ◌∙◌, subst, arith, inl, inr, Bool-cases,
}
use ttihp_protocol_emulator.Prelude.Results.{Result, ok, raise}
use ttihp_protocol_emulator.Host.{HostError, uo_rvalid, nibbles}
use ttihp_protocol_emulator.Host.Driver.{
  Port, Settings, Host, tick, set_window, bounce, ask, read_ui, pause, receive, read_word,
}
use ttihp_protocol_emulator.Host.Driver.Words.{
  Log, logged, given, given-append, idle-bits, read_byte, tick-log,
}
use ttihp_protocol_emulator.Host.Driver.Words.Joined.{joins, Small, given-Small, joins-nibbles}

-- What a piece of the driver adds to the log: at most `most` cycles, in which the chip gives these nibbles.
pub record Gains (most : ℕ) (nibs : List ℕ) (before after : Log) : Type 0 where
  pub piece : Log
  pub added : after ≡ before ++ piece
  pub gave : given piece ≡ nibs
  pub within : length piece ≤ most

Gains-trans :
    {m n : ℕ} {xs ys : List ℕ} {a b c : Log}
    → Gains m xs a b
    → Gains n ys b c
    → Gains (m + n) (xs ++ ys) a c
Gains-trans {m} {n} {xs} {ys} {a} {b} {c} f g = record {
  piece = f.piece ++ g.piece;
  added = g.added ∙ ap (λ l. l ++ g.piece) f.added ∙ append_assoc a f.piece g.piece;
  gave =
      given-append f.piece g.piece ∙ ap (λ l. l ++ given g.piece) f.gave ∙ ap (λ l. xs ++ l) g.gave;
  within = omega (arith, f.within, g.within, length-append f.piece g.piece);
}

Gains-weaken : {m n : ℕ} {xs : List ℕ} {a b : Log} → m ≤ n → Gains m xs a b → Gains n xs a b
Gains-weaken {m} {n} {xs} {a} {b} h f = record {
  piece = f.piece;
  added = f.added;
  gave = f.gave;
  within = omega (arith, f.within);
}

Gains-none : {most : ℕ} {a : Log} → Gains most [] a a
unfolding given
Gains-none {most} {a} = record {
  piece = [];
  added = sym (append-nil a);
  gave = refl;
  within = omega arith;
}

module _ {P : Type 0} (port : Port P) where
  idle-Gains :
      (window : ℕ) (h : Host (P × Log))
      → Gains 1 [] h.port.1 (tick (logged port) (window * 2 ^ 6) h).port.1
  unfolding given
  idle-Gains window h = record {
    piece = (window * 2 ^ 6, (tick (logged port) (window * 2 ^ 6) h).uo) ∷ [];
    added = tick-log port (window * 2 ^ 6) h;
    gave = rw (idle-bits window).1 refl;
    within = omega arith;
  }

  set_window-Gains :
      (window : ℕ) (h : Host (P × Log))
      → Gains 1 [] h.port.1 (set_window (logged port) window h).port.1
  unfolding set_window
  set_window-Gains window h = elim (Bool-cases (h.window == window)) [
    | inl same ↦ rw same Gains-none
    | inr other ↦ rw other (idle-Gains window (record h { window = window }))
  ]

  bounce-Gains : (h : Host (P × Log)) → Gains 1 [] h.port.1 (bounce (logged port) h).port.1
  unfolding bounce
  bounce-Gains h = set_window-Gains (bit_xor h.window 1) h

  pause-Gains :
      (count window : ℕ) (h : Host (P × Log))
      → Gains count [] h.port.1 (pause (logged port) count (window * 2 ^ 6) h).port.1
  unfolding pause
  pause-Gains zero window h = Gains-none
  pause-Gains (suc count) window h = Gains-weaken (omega arith) (
      Gains-trans (idle-Gains window h)
        (pause-Gains count window (tick (logged port) (window * 2 ^ 6) h)))

  tick-Gains :
      (window : ℕ) (h : Host (P × Log))
      → let h' = tick (logged port) (read_ui port window) h in
        Gains 1 (if uo_rvalid h'.uo then h'.uo % 16 ∷ [] else []) h.port.1 h'.port.1
  unfolding given
  tick-Gains window h = record {
    piece = (read_ui port window, (tick (logged port) (read_ui port window) h).uo) ∷ [];
    added = tick-log port (read_ui port window) h;
    gave = rw (read_byte window) refl;
    within = omega arith;
  }

  ask-Gains :
      (left window : ℕ) (h : Host (P × Log))
      → let (valid, h') = ask (logged port) left (read_ui port window) h in
        Gains left (if valid then h'.uo % 16 ∷ [] else []) h.port.1 h'.port.1
  unfolding ask
  ask-Gains zero window h = Gains-none
  ask-Gains (suc left) window h =
      let h' = tick (logged port) (read_ui port window) h in
      let told = λ (b : Bool) (e : uo_rvalid h'.uo ≡ b).
        subst (λ b. Gains 1 (if b then h'.uo % 16 ∷ [] else []) h.port.1 h'.port.1) e
          (tick-Gains window h) in
      elim (Bool-cases (uo_rvalid h'.uo)) [
        | inl valid ↦ rw valid (Gains-weaken (omega arith) (told true valid))
        | inr waiting ↦ rw waiting (
            Gains-weaken (omega arith)
              (Gains-trans (told false waiting) (ask-Gains left window h')))
      ]

  -- the cycles that the pauses of the nibbles from `n` on take
  abbrev pub paused : List ℕ → ℕ → ℕ → ℕ
  paused pauses n zero = 0
  paused pauses n (suc left) = get_or pauses n 0 + paused pauses (suc n) left

  -- The outcome of a read from the nibble `n` on.
  abbrev Got : ℕ → ℕ → ℕ → ℕ → ℕ → Log → Result HostError ℕ × Host (P × Log) → Type 0
  Got n left result timeout waits before (ok word, h') =
      (nibs : List ℕ) × (length nibs ≡ left)
      × (word ≡ joins n nibs result)
      × Gains (left * timeout + waits) nibs before h'.port.1
  Got n left result timeout waits before (raise e, h') =
      (e ≡ HostError.host_timeout)
      × ((nibs : List ℕ) × (length nibs < left)
          × Gains (left * timeout + waits + 1) nibs before h'.port.1)

  more_rounds : (left timeout : ℕ) → suc left * timeout ≡ timeout + left * timeout
  more_rounds left timeout = grind arith

  Got-cons :
      (n left result timeout waits more x : ℕ) {a b : Log}
      → Gains (waits + timeout) (x ∷ []) a b
      → (r : Result HostError ℕ × Host (P × Log))
      → Got (suc n) left (bit_or result (x * 2 ^ (4 * n))) timeout more b r
      → Got n (suc left) result timeout (waits + more) a r
  unfolding joins
  Got-cons n left result timeout waits more x one (ok word, h') (nibs, count, made, s) = (
    x ∷ nibs,
    ap suc count,
    made,
    Gains-weaken (omega (arith, more_rounds left timeout)) (Gains-trans one s),
  )
  Got-cons n left result timeout waits more x one (raise e, h') (e_is, (nibs, short, s)) = (
    e_is,
    (
      x ∷ nibs,
      omega arith,
      Gains-weaken (omega (arith, more_rounds left timeout)) (Gains-trans one s),
    ),
  )

  receive-Got :
      (left n timeout window : ℕ) (pauses : List ℕ) (result : ℕ) (h : Host (P × Log))
      → Got n left result timeout
          (paused pauses n left)
          h.port.1
          (receive (logged port) left n timeout window pauses result h)
  unfolding receive joins
  receive-Got zero n timeout window pauses result h = ([], refl, refl, Gains-none)
  receive-Got (suc left) n timeout window pauses result h =
      let waits = get_or pauses n 0 in
      let h₁ = pause (logged port) waits (window * 2 ^ 6) h in
      let o = ask (logged port) timeout (read_ui port window) h₁ in
      let one = Gains-trans (pause-Gains waits window h) (ask-Gains timeout window h₁) in
      let told = λ (b : Bool) (e : o.0 ≡ b).
        subst
          (λ b. Gains (waits + timeout) (if b then o.1.uo % 16 ∷ [] else []) h.port.1 o.1.port.1) e
          one in
      elim (Bool-cases o.0) [
        | inl valid ↦ rw valid (
            Got-cons n left result timeout waits (paused pauses (suc n) left) (o.1.uo % 16)
              (told true valid) _
              (receive-Got left (suc n) timeout window pauses
                (bit_or result (o.1.uo % 16 * 2 ^ (4 * n))) o.1))
        | inr late ↦ rw late (
          refl,
          (
            [],
            omega arith,
            Gains-weaken (omega (arith, more_rounds left timeout))
                (Gains-trans (told false late) (bounce-Gains o.1)),
          ),
        )
      ]

  -- The outcome of `read_word`.
  abbrev pub Read : ℕ → ℕ → Log → Result HostError ℕ × Host (P × Log) → Type 0
  Read timeout waits before (ok word, h') =
      Gains (8 * timeout + waits + 1) (nibbles word) before h'.port.1
  Read timeout waits before (raise e, h') =
      (e ≡ HostError.host_timeout)
      × ((nibs : List ℕ) × (length nibs < 8)
          × Gains (8 * timeout + waits + 2) nibs before h'.port.1)

  Got-Read :
      (timeout waits : ℕ) {a b : Log}
      → Gains 1 [] a b
      → (r : Result HostError ℕ × Host (P × Log)) → Got 0 8 0 timeout waits b r
      → Read timeout waits a r
  Got-Read timeout waits {a} {b} start (ok word, h) (nibs, count, made, s) =
      let same : nibs ≡ nibbles word =
        sym (joins-nibbles nibs count (subst Small s.gave (given-Small s.piece)))
        ∙ ap nibbles (sym made) in
      Gains-weaken (omega arith)
        (subst (λ l. Gains (1 + (8 * timeout + waits)) l a h.port.1) same (Gains-trans start s))
  Got-Read timeout waits {a} {b} start (raise e, h) (e_is, (nibs, short, s)) =
      (e_is, (nibs, short, Gains-weaken (omega arith) (Gains-trans start s)))

  -- A read of a word from window 0 or 3, with a time-out of at least one cycle, on any port: it takes at most
  -- 8 (time-out) + 1 cycles and the pauses that are asked for. If it returns, the chip gave in them exactly the
  -- eight nibbles of the word that is returned, the lowest first. Otherwise it raises HostTimeout, after
  -- fewer than eight nibbles and one cycle more.
  pub read_word-Read :
      (cfg : Settings) (window timeout : ℕ) (pauses : List ℕ) (h : Host (P × Log))
      → (window == 0 || window == 3) ≡ true
      → 0 < timeout
      → Read timeout
          (paused pauses 0 8)
          h.port.1
          (read_word (logged port) cfg window (some timeout) pauses h)
  unfolding read_word
  read_word-Read cfg window timeout pauses h p t =
      let allowed : (not (window == 0 || window == 3) || ltb timeout 1) ≡ false = ground arith in
      rw allowed (
        Got-Read timeout (paused pauses 0 8) (set_window-Gains window h) _
          (receive-Got 8 0 timeout window pauses 0 (set_window (logged port) window h)))
