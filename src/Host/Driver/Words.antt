-- ===== src/Host/Driver/Words.antt =====
-- What `write_word` and `read_word` of host/pe_host/host.py send and take, and how many cycles they
-- spend, seen by a port that keeps a log of its cycles.
pub mod Written
pub mod Joined
pub mod Received
use native.Mathlib.Nat.{pow-succ'}
use ttihp_protocol_emulator.Prelude.{
  ℕ, zero, suc, ◌+◌, ◌-◌, ◌*◌, ◌/◌, ◌%◌, ◌^◌, ◌<◌, ◌≤◌, bit_or, bit_xor, Bool, true, false, not,
  ◌&&◌, ◌||◌, Option, none, some, List, [], ◌∷◌, ◌++◌, get_or, length, length-append, append-nil,
  append_assoc, ltb, ◌==◌, if◌then◌else◌, ◌≡◌, refl, sym, ap, ◌∙◌, subst, arith, inl, inr,
  Bool-cases,
}
use ttihp_protocol_emulator.Prelude.Bits.{bit}
use ttihp_protocol_emulator.Prelude.Widths.{bit_or_sum, bit_or_comm, bit-digit}
use ttihp_protocol_emulator.Prelude.Results.{Result, ok, raise}
use ttihp_protocol_emulator.Host.{HostError, ui_wvalid, ui_rready, uo_wready, uo_rvalid, nibbles}
use ttihp_protocol_emulator.Host.Driver.{
  Port, Settings, Host, Action, tick, set_window, bounce, offer, write_ui, send, enter, leave,
  budget, write_word, ask, read_ui, pause, receive, read_word, ◌>>=◌,
}

-- one cycle: what was driven, and what was sampled
abbrev pub Log : Type 0
Log = List (ℕ × ℕ)

-- a port with its log
unfoldable pub logged : {P : Type 0} → Port P → Port (P × Log)
logged port = record {
  cycle = λ s ui. let (p, uo) = port.cycle s.0 ui in ((p, s.1 ++ (ui, uo) ∷ []), uo);
  reset = λ s cycles. (port.reset s.0 cycles, s.1);
  deselect = λ s cycles. (port.deselect s.0 cycles, s.1);
  free_run = λ s cycles hz. (port.free_run s.0 cycles hz, s.1);
  uo_visible = port.uo_visible;
}

-- the nibbles that the chip took: the cycles in which write-valid was driven and write-ready sampled
unfoldable pub taken : Log → List ℕ
taken [] = []
taken ((ui, uo) ∷ log) = if bit ui 4 && uo_wready uo then ui % 16 ∷ taken log else taken log

-- the nibbles that the chip gave: read-ready driven and read-valid sampled
unfoldable pub given : Log → List ℕ
given [] = []
given ((ui, uo) ∷ log) = if bit ui 5 && uo_rvalid uo then uo % 16 ∷ given log else given log

pub taken-append : (a b : Log) → taken (a ++ b) ≡ taken a ++ taken b
unfolding taken
taken-append [] b = refl
taken-append ((ui, uo) ∷ a) b = ground (arith, taken-append a b)

pub given-append : (a b : Log) → given (a ++ b) ≡ given a ++ given b
unfolding given
given-append [] b = refl
given-append ((ui, uo) ∷ a) b = ground (arith, given-append a b)

-- an idle byte of a window
pub idle-bits : (window : ℕ) → (bit (window * 2 ^ 6) 4 ≡ false) × (bit (window * 2 ^ 6) 5 ≡ false)
idle-bits window =
    (bit-digit (window * 2 ^ 6) 4 ∙ ground arith, bit-digit (window * 2 ^ 6) 5 ∙ ground arith)

pub write_byte :
    (window nibble : ℕ)
    → nibble < 16
    → let ui = bit_or (bit_or (window * 2 ^ 6) ui_wvalid) nibble in
      (bit ui 4 ≡ true) × (ui % 16 ≡ nibble)
write_byte window nibble h =
    let valid : bit_or (window * 2 ^ 6) ui_wvalid ≡ (1 + window * 4) * 2 ^ 4 =
      bit_or_comm (window * 2 ^ 6) 16 ∙ bit_or_sum 6 16 window (omega arith) ∙ omega arith in
    let byte : bit_or (bit_or (window * 2 ^ 6) ui_wvalid) nibble
        ≡ nibble + (1 + window * 4) * 2 ^ 4 =
      ap (λ n. bit_or n nibble) valid
      ∙ bit_or_comm ((1 + window * 4) * 2 ^ 4) nibble
      ∙ bit_or_sum 4 nibble (1 + window * 4) h in
    (rw byte (bit-digit (nibble + (1 + window * 4) * 2 ^ 4) 4 ∙ ground arith), omega (arith, byte))

pub read_byte : (window : ℕ) → bit (bit_or (window * 2 ^ 6) ui_rready) 5 ≡ true
read_byte window =
    let byte : bit_or (window * 2 ^ 6) ui_rready ≡ (1 + window * 2) * 2 ^ 5 =
      bit_or_comm (window * 2 ^ 6) 32 ∙ bit_or_sum 6 32 window (omega arith) ∙ omega arith in
    rw byte (bit-digit ((1 + window * 2) * 2 ^ 5) 5 ∙ ground arith)

-- What a piece of the driver adds to the log: at most `most` cycles, in which the chip takes these nibbles.
pub record Adds (most : ℕ) (nibs : List ℕ) (before after : Log) : Type 0 where
  pub piece : Log
  pub added : after ≡ before ++ piece
  pub took : taken piece ≡ nibs
  pub within : length piece ≤ most

pub Adds-trans :
    {m n : ℕ} {xs ys : List ℕ} {a b c : Log}
    → Adds m xs a b
    → Adds n ys b c
    → Adds (m + n) (xs ++ ys) a c
Adds-trans {m} {n} {xs} {ys} {a} {b} {c} f g = record {
  piece = f.piece ++ g.piece;
  added = g.added ∙ ap (λ l. l ++ g.piece) f.added ∙ append_assoc a f.piece g.piece;
  took =
      taken-append f.piece g.piece ∙ ap (λ l. l ++ taken g.piece) f.took ∙ ap (λ l. xs ++ l) g.took;
  within = omega (arith, f.within, g.within, length-append f.piece g.piece);
}

pub Adds-weaken : {m n : ℕ} {xs : List ℕ} {a b : Log} → m ≤ n → Adds m xs a b → Adds n xs a b
Adds-weaken {m} {n} {xs} {a} {b} h f = record {
  piece = f.piece;
  added = f.added;
  took = f.took;
  within = omega (arith, f.within);
}

module _ {P : Type 0} (port : Port P) where
  pub tick-log :
      (ui : ℕ) (h : Host (P × Log))
      → (tick (logged port) ui h).port.1 ≡ h.port.1 ++ (ui, (tick (logged port) ui h).uo) ∷ []
  unfolding tick logged
  tick-log ui h = refl

  -- an offer in one cycle
  pub tick-Adds :
      (ui nibble : ℕ) (h : Host (P × Log))
      → bit ui 4 ≡ true
      → ui % 16 ≡ nibble
      → let h' = tick (logged port) ui h in
        Adds 1 (if uo_wready h'.uo then nibble ∷ [] else []) h.port.1 h'.port.1
  unfolding taken
  tick-Adds ui nibble h valid low = record {
    piece = (ui, (tick (logged port) ui h).uo) ∷ [];
    added = tick-log ui h;
    took = rw (valid, low) refl;
    within = omega arith;
  }

  pub offer-Adds :
      (left ui nibble : ℕ) (first : Option ℕ) (h : Host (P × Log))
      → bit ui 4 ≡ true
      → ui % 16 ≡ nibble
      → let (done, _, h') = offer (logged port) left ui first h in
        Adds left (if done then nibble ∷ [] else []) h.port.1 h'.port.1
  unfolding offer taken
  offer-Adds zero ui nibble first h valid low = record {
    piece = [];
    added = sym (append-nil _);
    took = refl;
    within = omega arith;
  }
  offer-Adds (suc left) ui nibble first h valid low =
      let h' = tick (logged port) ui h in
      let sample : Option ℕ = elim first [ none ↦ some h'.uo | some uo ↦ some uo ] in
      let one = tick-Adds ui nibble h valid low in
      let told = λ (b : Bool) (e : uo_wready h'.uo ≡ b).
        subst (λ b. Adds 1 (if b then nibble ∷ [] else []) h.port.1 h'.port.1) e one in
      elim (Bool-cases (uo_wready h'.uo)) [
        | inl ready ↦ rw ready (Adds-weaken (omega arith) (told true ready))
        | inr busy ↦ rw busy (
            Adds-weaken (omega arith)
              (Adds-trans (told false busy) (offer-Adds left ui nibble sample h' valid low)))
      ]
