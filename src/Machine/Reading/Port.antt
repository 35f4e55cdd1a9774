-- ===== src/Machine/Reading/Port.antt =====
-- What the read port presents, through the host side of an edge.
use ttihp_protocol_emulator.Prelude.{
  ℕ, Bool, true, false, not, ◌≡◌, ◌≢◌, refl, ◌∙◌, none, some, inl, inr, nonempty, get_or, is_some,
  ◌==◌, arith, Bool-cases, Option-cases,
}
use ttihp_protocol_emulator.Machine.{Machine, engine_at}
use ttihp_protocol_emulator.Machine.Read.{read}
use ttihp_protocol_emulator.Machine.Mover.{is_engine}
use ttihp_protocol_emulator.Machine.Ports.{change_window, capture, accept_read}
use ttihp_protocol_emulator.Machine.Reading.Heads.{HasHead}

-- The machine presents, in window 3, the head of the RX queue of the selected engine `i`.
pub record IsPresenting (m : Machine) (i word : ℕ) : Type 0 where
  pub window : m.window ≡ 3
  pub selected : m.selected ≡ i
  pub read_word : m.read_word ≡ some word
  pub head : HasHead word (engine_at m i)

abbrev pub ReadPort : Machine → Type 0
ReadPort m = (i : ℕ) → m.read_engine ≡ some i → (word : ℕ) × IsPresenting m i word

pub nothing_read : (m : Machine) → m.read_engine ≡ none → ReadPort m
nothing_read m q i h = absurd (ground (arith, q, h))

module _ (m : Machine) (window : ℕ) where
  pub window-change_window : (change_window m window).window ≡ window
  unfolding change_window
  window-change_window = ground arith

  pub change_window-ReadPort : ReadPort m → ReadPort (change_window m window)
  unfolding change_window
  change_window-ReadPort r = elim (Bool-cases (window == m.window)) [
    | inl q ↦ rw q r
    | inr q ↦ rw q (nothing_read _ refl)
  ]

  -- A window that changed presents nothing.
  pub unread-change_window :
      not (window == m.window) ≡ true → (change_window m window).read_engine ≡ none
  unfolding change_window
  unread-change_window q = ground (arith, q)

-- What is presented after a capture was presented before it, or is the head of the selected engine's
-- queue.
record Captured (m m' : Machine) (i : ℕ) : Type 0 where
  window : m'.window ≡ m.window
  selected : m'.selected ≡ m.selected
  engines : m'.engines ≡ m.engines
  same : m.read_engine ≡ some i → m'.read_word ≡ m.read_word
  new :
      m.read_engine ≢ some i
      → (m.window ≡ 3)
        × (m.selected ≡ i)
        × (nonempty (engine_at m i).rx ≡ true)
        × (m'.read_word ≡ some (get_or (engine_at m i).rx 0 0))

capture-Captured :
    (m : Machine) (changed : Bool) (i : ℕ)
    → (is_some m.read_engine ≡ true → is_some m.read_word ≡ true)
    → (capture m m.window changed).read_engine ≡ some i
    → Captured m (capture m m.window changed) i
unfolding capture read
capture-Captured m changed i r q = record {
  window = ground arith;
  selected = ground arith;
  engines = ground arith;
  same = λ old. ground (arith, old, r);
  new = λ fresh_one. ground (arith, q, fresh_one);
}

word_presented :
    (m : Machine) → ReadPort m → is_some m.read_engine ≡ true → is_some m.read_word ≡ true
word_presented m r q = elim (Option-cases m.read_engine) [
  | inl none_read ↦ absurd (ground (arith, q, none_read))
  | inr (i, some_read) ↦ let (word, p) = r i some_read in ground (arith, p.read_word)
]

pub capture-ReadPort :
    (m : Machine) (changed : Bool) → ReadPort m → ReadPort (capture m m.window changed)
capture-ReadPort m changed r i q =
    let c = capture-Captured m changed i (word_presented m r) q in
    elim (Bool-cases (is_engine m.read_engine i)) [
      | inl old ↦
          let old' : m.read_engine ≡ some i = ground (arith, old) in
          let (word, p) = r i old' in
          (
            word,
            record {
              window = c.window ∙ p.window;
              selected = c.selected ∙ p.selected;
              read_word = c.same old' ∙ p.read_word;
              head = rw c.engines p.head;
            },
          )
      | inr new ↦
          let (three, here, filled, word) = c.new (ground (arith, new)) in
          (
            get_or (engine_at m i).rx 0 0,
            record {
              window = c.window ∙ three;
              selected = c.selected ∙ here;
              read_word = word;
              head = rw c.engines (record { filled = filled; first = refl });
            },
          )
    ]

pub capture_changed : (m : Machine) (window : ℕ) → capture m window true ≡ m
unfolding capture read
capture_changed m window = ground arith

-- The read port keeps what it presents until the last nibble is read; then it presents nothing.
pub accept_read-ReadPort :
    (m : Machine) (accepted : Bool) → ReadPort m → ReadPort (accept_read m accepted).0
unfolding accept_read
accept_read-ReadPort m false r = r
accept_read-ReadPort m true r = elim (Bool-cases (m.read_index == 7)) [
  | inl q ↦ rw q (nothing_read _ refl)
  | inr q ↦ rw q (λ i h.
      let (word, p) = r i h in
      (
        word,
        record { window = p.window; selected = p.selected; read_word = p.read_word; head = p.head },
      ))
]

pub accept_read_unread :
    (m : Machine) (accepted : Bool) (i : ℕ)
    → (accept_read m accepted).0.read_engine ≡ some i
    → (accept_read m accepted).1 ≡ none
unfolding accept_read
accept_read_unread m accepted i q = ground (arith, q)

pub accept_read-none :
    (m : Machine) (accepted : Bool)
    → m.read_engine ≡ none
    → (accept_read m accepted).0.read_engine ≡ none
unfolding accept_read
accept_read-none m accepted q = ground (arith, q)

pub window-capture :
    (m : Machine) (window : ℕ) (changed : Bool) → (capture m window changed).window ≡ m.window
unfolding capture
window-capture m window changed = ground arith

pub window-accept_read :
    (m : Machine) (accepted : Bool) → (accept_read m accepted).0.window ≡ m.window
unfolding accept_read
window-accept_read m accepted = ground arith
