-- ===== src/Machine/HostSide.antt =====
-- The host side of an edge on each engine: nothing, or one host act.
use ttihp_protocol_emulator.Prelude.{
  ℕ, ◌/◌, ◌%◌, ◌^◌, Bool, true, false, not, ◌&&◌, ◌∙◌, ◌≡◌, refl, inl, inr, Option, none, some,
  List, arith, get_or, Bool-cases, ◌==◌, subst,
}
use ttihp_protocol_emulator.Prelude.Bits.{bit}
use ttihp_protocol_emulator.Config.{Config}
use ttihp_protocol_emulator.Engine.{Engine, fresh}
use ttihp_protocol_emulator.Machine.{Machine, engine_at}
use ttihp_protocol_emulator.Machine.Outputs.{outputs}
use ttihp_protocol_emulator.Machine.Ports.{
  change_window, capture, accept_read, accept_command, accept_word, accept_write,
}
use ttihp_protocol_emulator.Machine.Mover.{Move, Busy, serve}
use ttihp_protocol_emulator.Machine.Tick.{host_edge}
use ttihp_protocol_emulator.Machine.Acts.{MayAct, command-MayAct, program_word-MayAct}

-- The ports change no engine but by a host act.
pub engines-change_window :
    (m : Machine) (window : ℕ) → (change_window m window).engines ≡ m.engines
unfolding change_window
engines-change_window m window = ground arith

pub engines-capture :
    (m : Machine) (window : ℕ) (changed : Bool) → (capture m window changed).engines ≡ m.engines
unfolding capture
engines-capture m window changed = ground arith

pub engines-accept_read :
    (m : Machine) (accepted : Bool) → (accept_read m accepted).0.engines ≡ m.engines
unfolding accept_read
engines-accept_read m accepted = ground arith

module _ (cfg : Config) (m : Machine) (i : ℕ) where
  accept_word-MayAct :
      (window word events : ℕ)
      → MayAct cfg (engine_at m i) (engine_at (accept_word cfg m window word events).machine i)
  unfolding accept_word accept_command
  accept_word-MayAct window word events = elim (Bool-cases (window == 0)) [
    | inl q ↦ rw q (command-MayAct cfg m word i)
    | inr q ↦ elim (Bool-cases (window == 1)) [
      | inl r ↦ rw (q, r) (program_word-MayAct cfg m word i)
      | inr r ↦
          rw (q, r)
            (elim (Bool-cases (window == 2)) [ inl u ↦ rw u (inl refl) | inr u ↦ rw u (inl refl) ])
    ]
  ]

module _ (cfg : Config) (m : Machine) (i : ℕ) where
  pub accept_write-MayAct :
      (window nibble : ℕ) (accepted : Bool) (events : ℕ)
      → MayAct cfg
          (engine_at m i)
          (engine_at (accept_write cfg m window nibble accepted events).machine i)
  unfolding accept_write
  accept_write-MayAct window nibble false events = inl refl
  accept_write-MayAct window nibble true events = elim (Bool-cases (m.write_index == 7)) [
    | inl q ↦ rw q (accept_word-MayAct cfg _ i window _ events)
    | inr q ↦ rw q (inl refl)
  ]

pub engines-serve :
    (cfg : Config) (before : List Engine) (busy : Busy) (m : Machine) (move : Option Move)
    → (serve cfg before busy m move).engines ≡ m.engines
unfolding serve
engines-serve cfg before busy m none = refl
engines-serve cfg before busy m (some move) = refl

-- The host side of an edge leaves every engine alone or does one act on it.
pub host_edge-MayAct :
    (cfg : Config) (m : Machine) (ui i : ℕ)
    → MayAct cfg (engine_at m i) (engine_at (host_edge cfg m ui).written.machine i)
unfolding host_edge
host_edge-MayAct cfg m₀ ui i =
    let window = ui / 2 ^ 6 % 4 in
    let changed = not (window == m₀.window) in
    let m = change_window m₀ window in
    let captured = capture m window changed in
    let accepted = bit ui 5 && bit (outputs cfg m₀ ui false true).uo 5 in
    let same : (accept_read captured accepted).0.engines ≡ m₀.engines =
      engines-accept_read captured accepted
      ∙ engines-capture m window changed
      ∙ engines-change_window m₀ window in
    subst (λ es. MayAct cfg (get_or es i fresh) (engine_at (host_edge cfg m₀ ui).written.machine i))
      same (accept_write-MayAct cfg (accept_read captured accepted).0 i window (ui % 16) _ _)
