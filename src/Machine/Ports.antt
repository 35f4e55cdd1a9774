-- ===== src/Machine/Ports.antt =====
-- The host side of `tick` in test/model/reference.py, in the order in which it works: the window,
-- the triggers, the read port, the write port.
use ttihp_protocol_emulator.Prelude.{
  ℕ, suc, ◌+◌, ◌*◌, ◌/◌, ◌%◌, ◌^◌, bit_or, Bool, not, ◌&&◌, Option, none, some, List, [], ◌∷◌,
  is_some, to_ℕ, ◌==◌, if◌then◌else◌,
}
use ttihp_protocol_emulator.Prelude.Bits.{bit, and_not}
use ttihp_protocol_emulator.Config.{Config}
use ttihp_protocol_emulator.Engine.{Engine}
use ttihp_protocol_emulator.Machine.{Machine}
use ttihp_protocol_emulator.Machine.Read.{read}
use ttihp_protocol_emulator.Machine.Command.{command, program_word}

unfoldable pub change_window : Machine → ℕ → Machine
change_window m window = if window == m.window then m else record m {
  window = window;
  write_index = 0;
  write_word = 0;
  read_index = 0;
  read_word = none;
  read_engine = none;
}

-- rising, falling, high, low
abbrev pub detects : ℕ → Bool → Bool → Bool
detects mode current previous =
    if mode == 0
    then current && not previous
    else if mode == 1
    then previous && not current
    else if mode == 2
    then current
    else not current

-- `external_events`: a bit for each engine whose trigger fires
unfoldable pub external_events : Machine → ℕ → ℕ → List Engine → ℕ
external_events m index events [] = events
external_events m index events (e ∷ es) =
    external_events m (suc index)
      (elim e.trigger [
        | none ↦ events
        | some (pin, mode) ↦
            bit_or events
              (to_ℕ (detects mode (bit m.sync2 pin) (bit m.previous_pins pin)) * 2 ^ index)
      ])
      es

-- a word is captured when none is presented, but not on the edge that changes the window
unfoldable pub capture : Machine → ℕ → Bool → Machine
capture m window changed =
    let (valid, word, _) = read m window in
    if valid && (not (is_some m.read_word) && not changed)
    then record m {
      read_word = some word;
      read_engine = if window == 3 then some m.selected else none;
    }
    else m

-- the read port; the second part is `host_rx`, the engine whose word was read to the end
unfoldable pub accept_read : Machine → Bool → Machine × Option ℕ
accept_read m accepted =
    if accepted
    then (if m.read_index == 7
        then (record m { read_index = 0; read_word = none; read_engine = none }, m.read_engine)
        else (record m { read_index = m.read_index + 1 }, none))
    else (m, none)

-- What the write port hands on: `host_tx`, `host_event`, `external_events`, `edited_route`.
pub record Written : Type 0 where
  pub machine : Machine
  pub host_tx : Option (ℕ × ℕ)
  pub host_event : ℕ
  pub external : ℕ
  pub edited_route : Option ℕ

-- nothing but a new state
abbrev pub written : Machine → ℕ → Written
written m events = record {
  machine = m;
  host_tx = none;
  host_event = 0;
  external = events;
  edited_route = none;
}

module _ (cfg : Config) where
  -- a complete command word; `events` are the external events
  unfoldable pub accept_command : Machine → ℕ → ℕ → Written
  accept_command m word events =
      let (m', ok) = command cfg m word in
      let op = word / 2 ^ 24 in
      record {
        machine = m';
        host_tx = none;
        host_event = if op == 9 && ok then word % 2 ^ 24 else 0;
        external = if ok && op == 11 then and_not events (2 ^ m'.selected) else events;
        edited_route = if ok && op == 6 then some (word % 4) else none;
      }

  -- a complete word, in its window
  unfoldable pub accept_word : Machine → ℕ → ℕ → ℕ → Written
  accept_word m window word events =
      if window == 0
      then accept_command m word events
      else if window == 1
      then written (program_word cfg m word).0 events
      else if window == 2
      then record (written m events) { host_tx = some (m.selected, word % 2 ^ cfg.width) }
      else written m events

  -- the write port: eight nibbles, the lowest first, make a word
  unfoldable pub accept_write : Machine → ℕ → ℕ → Bool → ℕ → Written
  accept_write m window nibble accepted events =
      let word = bit_or m.write_word (nibble * 2 ^ (4 * m.write_index)) in
      if accepted
      then (if m.write_index == 7
          then accept_word (record m { write_index = 0; write_word = 0 }) window word events
          else written (record m { write_word = word; write_index = m.write_index + 1 }) events)
      else written m events
