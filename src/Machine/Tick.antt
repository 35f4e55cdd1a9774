-- ===== src/Machine/Tick.antt =====
-- `tick` of test/model/reference.py.
use ttihp_protocol_emulator.Prelude.{
  ℕ, ◌+◌, ◌/◌, ◌%◌, ◌^◌, bit_or, Bool, true, false, not, ◌&&◌, ◌||◌, Option, none, some, ◌==◌, map,
  if◌then◌else◌,
}
use ttihp_protocol_emulator.Prelude.Bits.{bit}
use ttihp_protocol_emulator.Config.{Config}
use ttihp_protocol_emulator.Engine.{Engine}
use ttihp_protocol_emulator.Engine.Step.{is_stalled}
use ttihp_protocol_emulator.Machine.{Machine, no_engines, reset}
use ttihp_protocol_emulator.Machine.Outputs.{Outputs, outputs}
use ttihp_protocol_emulator.Machine.Ports.{
  Written, change_window, external_events, capture, accept_read, accept_write,
}
use ttihp_protocol_emulator.Machine.Mover.{Busy, host_dest, scan, serve}
use ttihp_protocol_emulator.Machine.Queues.{all_edges, collect, settle_all}

-- What the host side of an edge hands on: the state before the edge with its new window, whether the
-- window changed, the engine whose word was read, and what was written.
pub record HostEdge : Type 0 where
  pub before : Machine
  pub changed : Bool
  pub host_rx : Option ℕ
  pub written : Written

module _ (cfg : Config) where
  -- `e.stalled = bool(self._stalled(e))`
  unfoldable pub restall : ℕ → Engine → Engine
  restall sync2 e = record e { stalled = is_stalled cfg sync2 e }

  -- the registers that every edge moves on, and the stall flags on the new synchroniser output
  unfoldable pub clock_edge : Machine → ℕ → Machine
  clock_edge m pins = record m {
    starts = no_engines;
    stops = no_engines;
    previous_pins = m.sync2;
    sync2 = m.sync1;
    sync1 = pins % 256;
    timestamp = (m.timestamp + 1) % 2 ^ 32;
    engines = map (restall m.sync1) m.engines;
  }

  -- the mover, the engines and the queues; `m` is the state before the edge, with its new window
  unfoldable pub engines_edge : Machine → Bool → Option ℕ → Written → Machine
  engines_edge m changed host_rx w =
      let window = m.window in
      let busy : Busy = record {
        reserved = if window == 3 && not changed then some m.selected else none;
        host_dest = host_dest w.host_tx;
        edited = w.edited_route;
      } in
      let move = scan cfg m.engines busy w.machine cfg.engines 0 in
      let served = serve cfg m.engines busy w.machine move in
      let changes = all_edges cfg m.engines served in
      let signals = collect (bit_or w.host_event w.external) changes in
      record served { engines = settle_all host_rx w.host_tx move signals changes }

  -- the host side: the window, the triggers, the read port and the write port
  unfoldable pub host_edge : Machine → ℕ → HostEdge
  host_edge m₀ ui =
      let window = ui / 2 ^ 6 % 4 in
      let changed = not (window == m₀.window) in
      let pre = outputs cfg m₀ ui false true in
      let m = change_window m₀ window in
      let events = external_events m 0 0 m.engines in
      let (m₁, host_rx) = accept_read (capture m window changed) (bit ui 5 && bit pre.uo 5) in
      record {
        before = m;
        changed = changed;
        host_rx = host_rx;
        written = accept_write cfg m₁ window (ui % 16) (bit ui 4 && bit pre.uo 4) events;
      }

  -- an edge without reset
  unfoldable pub edge : Machine → ℕ → ℕ → Machine
  edge m ui pins =
      let h = host_edge m ui in
      clock_edge (engines_edge h.before h.changed h.host_rx h.written) pins

  unfoldable pub tick : Machine → ℕ → ℕ → Bool → Bool → Machine × Outputs
  tick m ui pins reset_in enabled =
      let m' = if reset_in || not enabled then reset cfg else edge m ui pins in
      (m', outputs cfg m' ui reset_in enabled)
