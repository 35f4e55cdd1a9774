-- ===== src/Machine/Isolation/Edges.antt =====
-- Pins stay apart through the ports, the edges and whole runs.
use ttihp_protocol_emulator.Prelude.{
  ℕ, ◌/◌, ◌%◌, ◌^◌, Bool, true, false, not, ◌&&◌, ◌≡◌, refl, ◌∙◌, List, [], ◌∷◌, get_or,
  get_or-replicate, replicate, sym, inl, inr, ◌==◌, Bool-cases, subst,
}
use ttihp_protocol_emulator.Prelude.Bits.{bit, bit-zero}
use ttihp_protocol_emulator.Config.{Config}
use ttihp_protocol_emulator.Engine.{Engine, fresh}
use ttihp_protocol_emulator.Engine.Frame.{step-Keeps}
use ttihp_protocol_emulator.Machine.{Machine, reset, engine_at}
use ttihp_protocol_emulator.Machine.Outputs.{outputs}
use ttihp_protocol_emulator.Machine.Ports.{
  change_window, capture, accept_read, accept_command, accept_word, accept_write,
}
use ttihp_protocol_emulator.Machine.Tick.{host_edge, tick}
use ttihp_protocol_emulator.Machine.Rule.{IsFrame, edge_R}
use ttihp_protocol_emulator.Machine.HostSide.{
  engines-change_window, engines-capture, engines-accept_read,
}
use ttihp_protocol_emulator.Machine.Reach.{Input, run}
use ttihp_protocol_emulator.Machine.Isolation.{
  AreApart, AreApart-same, command-AreApart, program_word-AreApart,
}

module _ (cfg : Config) (m : Machine) (p : ℕ) (a : AreApart p m.engines) where
  accept_word-AreApart :
      (window word events : ℕ) → AreApart p (accept_word cfg m window word events).machine.engines
  unfolding accept_word accept_command
  accept_word-AreApart window word events = elim (Bool-cases (window == 0)) [
    | inl q ↦ rw q (command-AreApart cfg m word p a)
    | inr q ↦ elim (Bool-cases (window == 1)) [
      | inl r ↦ rw (q, r) (program_word-AreApart cfg m word p a)
      | inr r ↦ rw (q, r) (elim (Bool-cases (window == 2)) [ inl u ↦ rw u a | inr u ↦ rw u a ])
    ]
  ]

module _ (cfg : Config) (m : Machine) (p : ℕ) (a : AreApart p m.engines) where
  accept_write-AreApart :
      (window nibble : ℕ) (accepted : Bool) (events : ℕ)
      → AreApart p (accept_write cfg m window nibble accepted events).machine.engines
  unfolding accept_write
  accept_write-AreApart window nibble false events = a
  accept_write-AreApart window nibble true events = elim (Bool-cases (m.write_index == 7)) [
    | inl q ↦ rw q (accept_word-AreApart cfg _ p a window _ events)
    | inr q ↦ rw q a
  ]

SameOwner : Engine → Engine → Type 0
SameOwner e e' = e'.ownership ≡ e.ownership

SameOwner-frame : (cfg : Config) → IsFrame cfg SameOwner
unfolding SameOwner
SameOwner-frame cfg = record {
  same = λ e. refl;
  trans = λ e e' e'' p q. q ∙ p;
  cycle = λ s t a r e. (step-Keeps cfg s t a r e).0.ownership;
  quiet = λ e tx rx event stalled. refl;
}

module _ (cfg : Config) (p : ℕ) where
  host_edge-AreApart :
      (m : Machine) (ui : ℕ)
      → AreApart p m.engines
      → AreApart p (host_edge cfg m ui).written.machine.engines
  unfolding host_edge
  host_edge-AreApart m₀ ui a =
      let window = ui / 2 ^ 6 % 4 in
      let changed = not (window == m₀.window) in
      let m = change_window m₀ window in
      let captured = capture m window changed in
      let accepted = bit ui 5 && bit (outputs cfg m₀ ui false true).uo 5 in
      let same : (accept_read captured accepted).0.engines ≡ m₀.engines =
        engines-accept_read captured accepted
        ∙ engines-capture m window changed
        ∙ engines-change_window m₀ window in
      accept_write-AreApart cfg (accept_read captured accepted).0 p
        (subst (AreApart p) (sym same) a) window (ui % 16) _ _

  reset-AreApart : AreApart p (reset cfg).engines
  unfolding reset
  reset-AreApart i j a b =
      let none_owned : bit (get_or (replicate cfg.engines fresh) i fresh).ownership p ≡ false =
        rw get_or-replicate (bit-zero p) in
      cc (none_owned, a)

  tick-AreApart :
      (m : Machine) (ui pins : ℕ) (reset_in enabled : Bool)
      → AreApart p m.engines
      → AreApart p (tick cfg m ui pins reset_in enabled).0.engines
  unfolding tick SameOwner
  tick-AreApart m ui pins true enabled a = reset-AreApart
  tick-AreApart m ui pins false true a =
      AreApart-same p (host_edge cfg m ui).written.machine.engines _
        (edge_R cfg SameOwner (SameOwner-frame cfg) m ui pins) (host_edge-AreApart m ui a)
  tick-AreApart m ui pins false false a = reset-AreApart

  run-AreApart_from :
      (is : List Input) (m : Machine) → AreApart p m.engines → AreApart p (run cfg is m).engines
  unfolding run
  run-AreApart_from [] m a = a
  run-AreApart_from (i ∷ is) m a =
      run-AreApart_from is _ (tick-AreApart m i.ui i.pins i.reset i.enabled a)

  -- In every run from reset no pin has two owners: whatever the host and the engines do, engines `i`
  -- and `j` that both own the pin `p` are the same engine.
  pub run-AreApart :
      (is : List Input) (i j : ℕ)
      → bit (engine_at (run cfg is (reset cfg)) i).ownership p ≡ true
      → bit (engine_at (run cfg is (reset cfg)) j).ownership p ≡ true
      → i ≡ j
  run-AreApart is i j a b = run-AreApart_from is (reset cfg) reset-AreApart i j a b
