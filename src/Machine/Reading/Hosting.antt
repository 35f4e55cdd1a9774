-- ===== src/Machine/Reading/Hosting.antt =====
-- What the read port presents through the host side of an edge.
use ttihp_protocol_emulator.Prelude.{
  ℕ, ◌/◌, ◌%◌, ◌^◌, Bool, true, false, not, ◌&&◌, ◌≡◌, ◌∙◌, sym, none, some, inl, inr, ◌==◌, arith,
  Bool-cases, subst,
}
use ttihp_protocol_emulator.Prelude.Bits.{bit}
use ttihp_protocol_emulator.Config.{Config}
use ttihp_protocol_emulator.Machine.{Machine}
use ttihp_protocol_emulator.Machine.Outputs.{outputs}
use ttihp_protocol_emulator.Machine.Ports.{change_window, capture, accept_read, external_events}
use ttihp_protocol_emulator.Machine.Tick.{host_edge}
use ttihp_protocol_emulator.Machine.Reading.Port.{
  ReadPort, window-change_window, change_window-ReadPort, unread-change_window, capture-ReadPort,
  capture_changed, accept_read-ReadPort, accept_read_unread, accept_read-none, window-capture,
  window-accept_read,
}
use ttihp_protocol_emulator.Machine.Reading.Written.{
  accept_write-ReadPort, accept_write-SameReads, accept_write_idle,
}
use ttihp_protocol_emulator.Machine.Queues.Edges.{selected-capture, selected-accept_read}

module _ (cfg : Config) (m : Machine) (ui : ℕ) (r : ReadPort m) where
  captured-ReadPort :
      (window : ℕ) (changed : Bool) → ReadPort (capture (change_window m window) window changed)
  captured-ReadPort window changed =
      subst (λ w. ReadPort (capture (change_window m window) w changed))
        (window-change_window m window)
        (capture-ReadPort (change_window m window) changed (change_window-ReadPort m window r))

  pub host_edge-ReadPort : ReadPort (host_edge cfg m ui).written.machine
  unfolding host_edge
  host_edge-ReadPort =
      let window = ui / 2 ^ 6 % 4 in
      let changed = not (window == m.window) in
      let m₁ = change_window m window in
      let accepted = bit ui 5 && bit (outputs cfg m ui false true).uo 5 in
      let m₂ = (accept_read (capture m₁ window changed) accepted).0 in
      let at : m₂.window ≡ window =
        window-accept_read (capture m₁ window changed) accepted
        ∙ window-capture m₁ window changed
        ∙ window-change_window m window in
      accept_write-ReadPort cfg m₂ (ui % 16) _ _ window at
        (accept_read-ReadPort _ accepted (captured-ReadPort window changed))

  -- What the edge leaves presented stands in a window that did not change and was not read to its end.
  unchanged :
      (i window : ℕ) (accepted : Bool)
      → (accept_read
          (capture (change_window m window) window (not (window == m.window)))
          accepted).0.read_engine
        ≡ some i
      → not (window == m.window) ≡ false
  unchanged i window accepted q = elim (Bool-cases (not (window == m.window))) [
    | inr same ↦ same
    | inl changed ↦
        let m₁ = change_window m window in
        let unread : (capture m₁ window (not (window == m.window))).read_engine ≡ none =
          rw changed (rw capture_changed (unread-change_window m window changed)) in
        let bad : none ≡ some i =
          sym (accept_read-none (capture m₁ window (not (window == m.window))) accepted unread)
          ∙ q in
        absurd (ground (arith, bad))
  ]

  pub presented :
      (i : ℕ)
      → (host_edge cfg m ui).written.machine.read_engine ≡ some i
      → let h = host_edge cfg m ui in
        (h.host_rx ≡ none)
        × (h.changed ≡ false)
        × (h.before.window ≡ h.written.machine.window)
        × (h.before.selected ≡ h.written.machine.selected)
  unfolding host_edge
  presented i q =
      let window = ui / 2 ^ 6 % 4 in
      let changed = not (window == m.window) in
      let m₁ = change_window m window in
      let captured = capture m₁ window changed in
      let accepted = bit ui 5 && bit (outputs cfg m ui false true).uo 5 in
      let m₂ = (accept_read captured accepted).0 in
      let same =
        accept_write-SameReads cfg m₂ (ui % 16) (bit ui 4 && bit (outputs cfg m ui false true).uo 4)
          (external_events m₁ 0 0 m₁.engines) window in
      let from₁ : m₂.window ≡ m₁.window =
        window-accept_read captured accepted ∙ window-capture m₁ window changed in
      let (word, p) = host_edge-ReadPort i q in
      let three : window ≡ 3 =
        sym (window-change_window m window) ∙ sym from₁ ∙ sym same.window ∙ p.window in
      let (engines, selected) = accept_write_idle cfg m₂ (ui % 16) _ _ window three in
      let q₂ : m₂.read_engine ≡ some i = sym same.read_engine ∙ q in
      (
        accept_read_unread captured accepted i q₂,
        unchanged i window accepted q₂,
        sym from₁ ∙ sym same.window,
        sym (
            selected ∙ selected-accept_read captured accepted ∙ selected-capture m₁ window changed),
      )
