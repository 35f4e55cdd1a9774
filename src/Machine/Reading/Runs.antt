-- ===== src/Machine/Reading/Runs.antt =====
-- What the read port presents in every run, and what the host takes from a queue.
use ttihp_protocol_emulator.Prelude.{
  ℕ, ◌/◌, ◌%◌, ◌^◌, Bool, true, false, not, ◌&&◌, ◌≡◌, refl, ◌∙◌, sym, Option, none, some, List, [],
  ◌∷◌, ◌==◌, arith, is_some,
}
use ttihp_protocol_emulator.Prelude.Bits.{bit}
use ttihp_protocol_emulator.Config.{Config}
use ttihp_protocol_emulator.Engine.{Engine}
use ttihp_protocol_emulator.Machine.{Machine, reset}
use ttihp_protocol_emulator.Machine.Outputs.{outputs, read_valid}
use ttihp_protocol_emulator.Machine.Handshake.{outputs_valid}
use ttihp_protocol_emulator.Machine.Mover.{Move, Busy, serve}
use ttihp_protocol_emulator.Machine.Ports.{Written, change_window, capture, accept_read}
use ttihp_protocol_emulator.Machine.Tick.{HostEdge, clock_edge, engines_edge, host_edge, edge, tick}
use ttihp_protocol_emulator.Machine.Reach.{Input, run}
use ttihp_protocol_emulator.Machine.Reading.Heads.{engines_edge_head, clock_edge_head}
use ttihp_protocol_emulator.Machine.Reading.Port.{IsPresenting, ReadPort, nothing_read}
use ttihp_protocol_emulator.Machine.Reading.Hosting.{host_edge-ReadPort, presented}

-- what the engines' part of an edge leaves alone
record SamePort (m m' : Machine) : Type 0 where
  window : m'.window ≡ m.window
  selected : m'.selected ≡ m.selected
  read_engine : m'.read_engine ≡ m.read_engine
  read_word : m'.read_word ≡ m.read_word

serve-SamePort :
    (cfg : Config) (before : List Engine) (busy : Busy) (m : Machine) (move : Option Move)
    → SamePort m (serve cfg before busy m move)
unfolding serve
serve-SamePort cfg before busy m none = ground arith
serve-SamePort cfg before busy m (some move) = ground arith

engines_edge-SamePort :
    (cfg : Config) (m : Machine) (changed : Bool) (host_rx : Option ℕ) (w : Written)
    → SamePort w.machine (engines_edge cfg m changed host_rx w)
unfolding engines_edge
engines_edge-SamePort cfg m changed host_rx w =
    let p = serve-SamePort cfg m.engines _ w.machine _ in
    record {
      window = p.window;
      selected = p.selected;
      read_engine = p.read_engine;
      read_word = p.read_word;
    }

clock_edge-SamePort : (cfg : Config) (m : Machine) (pins : ℕ) → SamePort m (clock_edge cfg m pins)
unfolding clock_edge
clock_edge-SamePort cfg m pins = record {
  window = refl;
  selected = refl;
  read_engine = refl;
  read_word = refl;
}

module _ (cfg : Config) where
  engines_edge-ReadPort :
      (i word : ℕ) (h : HostEdge)
      → IsPresenting h.written.machine i word
      → h.host_rx ≡ none
      → h.changed ≡ false
      → h.before.window ≡ h.written.machine.window
      → h.before.selected ≡ h.written.machine.selected
      → IsPresenting (engines_edge cfg h.before h.changed h.host_rx h.written) i word
  engines_edge-ReadPort i word h p unread unchanged_window window selected =
      let same = engines_edge-SamePort cfg h.before h.changed h.host_rx h.written in
      record {
        window = same.window ∙ p.window;
        selected = same.selected ∙ p.selected;
        read_word = same.read_word ∙ p.read_word;
        head = rw unchanged_window (
            engines_edge_head word i cfg h.before h.host_rx h.written (window ∙ p.window)
              (selected ∙ p.selected) (rw unread refl) p.head);
      }

  clock_edge-ReadPort :
      (i word : ℕ) (m : Machine) (pins : ℕ)
      → IsPresenting m i word
      → IsPresenting (clock_edge cfg m pins) i word
  clock_edge-ReadPort i word m pins p =
      let same = clock_edge-SamePort cfg m pins in
      record {
        window = same.window ∙ p.window;
        selected = same.selected ∙ p.selected;
        read_word = same.read_word ∙ p.read_word;
        head = clock_edge_head word i cfg m pins p.head;
      }

  edge-ReadPort : (m : Machine) (ui pins : ℕ) → ReadPort m → ReadPort (edge cfg m ui pins)
  unfolding edge
  edge-ReadPort m ui pins r i q =
      let h = host_edge cfg m ui in
      let stepped = engines_edge cfg h.before h.changed h.host_rx h.written in
      let q' : h.written.machine.read_engine ≡ some i =
        sym (engines_edge-SamePort cfg h.before h.changed h.host_rx h.written).read_engine
        ∙ sym (clock_edge-SamePort cfg stepped pins).read_engine
        ∙ q in
      let (word, p) = host_edge-ReadPort cfg m ui r i q' in
      let (unread, unchanged_window, window, selected) = presented cfg m ui r i q' in
      (
        word,
        clock_edge-ReadPort i word stepped pins
            (engines_edge-ReadPort i word h p unread unchanged_window window selected),
      )

  tick-ReadPort :
      (m : Machine) (ui pins : ℕ) (reset_in enabled : Bool)
      → ReadPort m
      → ReadPort (tick cfg m ui pins reset_in enabled).0
  unfolding tick reset
  tick-ReadPort m ui pins true enabled r = nothing_read _ refl
  tick-ReadPort m ui pins false true r = edge-ReadPort m ui pins r
  tick-ReadPort m ui pins false false r = nothing_read _ refl

  run-ReadPort_from : (is : List Input) (m : Machine) → ReadPort m → ReadPort (run cfg is m)
  unfolding run
  run-ReadPort_from [] m r = r
  run-ReadPort_from (i ∷ is) m r =
      run-ReadPort_from is _ (tick-ReadPort m i.ui i.pins i.reset i.enabled r)

  reset-ReadPort : ReadPort (reset cfg)
  unfolding reset
  reset-ReadPort = nothing_read _ refl

  -- In every run from reset, what the read port holds of engine `i` is the head of the RX queue of `i`,
  -- the queue is not empty, `i` is the selected engine and the window is 3: no push, move, command or
  -- host write takes the word away before it is read.
  pub run-IsPresenting :
      (is : List Input) (i : ℕ)
      → (run cfg is (reset cfg)).read_engine ≡ some i
      → (word : ℕ) × IsPresenting (run cfg is (reset cfg)) i word
  run-IsPresenting is i q = run-ReadPort_from is (reset cfg) reset-ReadPort i q

module _ (cfg : Config) (m : Machine) (ui i : ℕ) where
  read_valid_here :
      (window : ℕ)
      → read_valid cfg m window ≡ true
      → (window ≡ m.window) × (is_some m.read_word ≡ true)
  unfolding read_valid
  read_valid_here window q = ground (arith, q)

  -- a window that is current changes nothing, and a presented word is not captured again
  still :
      (window : ℕ)
      → window ≡ m.window
      → is_some m.read_word ≡ true
      → (capture (change_window m window) window (not (window == m.window))).read_engine
        ≡ m.read_engine
  unfolding change_window capture
  still window at held = ground (arith, at, held)

  taken :
      (m : Machine) (accepted : Bool)
      → (accept_read m accepted).1 ≡ some i
      → (accepted ≡ true) × (m.read_engine ≡ some i)
  unfolding accept_read
  taken m accepted q = ground (arith, q)

  taken_from : (host_edge cfg m ui).host_rx ≡ some i → m.read_engine ≡ some i
  unfolding host_edge
  taken_from q =
      let window = ui / 2 ^ 6 % 4 in
      let accepted = bit ui 5 && bit (outputs cfg m ui false true).uo 5 in
      let (did, from) = taken (capture (change_window m window) window _) accepted q in
      let valid : read_valid cfg m window ≡ true =
        sym (outputs_valid cfg m ui) ∙ ground (arith, did) in
      let (at, held) = read_valid_here window valid in sym (still window at held) ∙ from

-- On every edge of a run from reset that takes a word for the host from the RX queue of an engine, the
-- queue is not empty and its first word is the one that the host has been reading.
pub run_host_rx :
    (cfg : Config) (is : List Input) (ui i : ℕ)
    → (host_edge cfg (run cfg is (reset cfg)) ui).host_rx ≡ some i
    → (word : ℕ) × IsPresenting (run cfg is (reset cfg)) i word
run_host_rx cfg is ui i q =
    run-IsPresenting cfg is i (taken_from cfg (run cfg is (reset cfg)) ui i q)
