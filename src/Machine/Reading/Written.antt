-- ===== src/Machine/Reading/Written.antt =====
-- What the read port presents, through a word that the host writes.
use ttihp_protocol_emulator.Prelude.{
  ℕ, ◌*◌, bit_or, ◌/◌, ◌%◌, ◌^◌, Bool, ◌≡◌, ◌∙◌, sym, inl, inr, arith, Bool-cases, Option-cases,
}
use ttihp_protocol_emulator.Config.{Config}
use ttihp_protocol_emulator.Machine.{Machine}
use ttihp_protocol_emulator.Machine.Command.{
  HostOp, host_op, rejects, effect, command, program_word,
}
use ttihp_protocol_emulator.Machine.Ports.{accept_command, accept_word, accept_write}
use ttihp_protocol_emulator.Machine.Reading.Port.{ReadPort}

-- In window 3 the write port does nothing to what is presented; elsewhere nothing is.
pub record SameReads (m m' : Machine) : Type 0 where
  pub window : m'.window ≡ m.window
  pub read_engine : m'.read_engine ≡ m.read_engine
  pub read_word : m'.read_word ≡ m.read_word

effect-SameReads : (o : HostOp) (m : Machine) (payload : ℕ) → SameReads m (effect o m payload)
unfolding effect
effect-SameReads HostOp.own m payload = ground arith
effect-SameReads _ m payload = ground arith

module _ (cfg : Config) (m : Machine) where
  command-SameReads : (word : ℕ) → SameReads m (command cfg m word).0
  unfolding command
  command-SameReads word = elim (Option-cases (host_op (word / 2 ^ 24))) [
    | inl q ↦ rw (q, command) (ground arith)
    | inr (o, q) ↦ elim (Bool-cases (rejects cfg o m (word % 2 ^ 24))) [
      | inl bad ↦ rw (q, command) (rw bad (ground arith))
      | inr good ↦ rw (q, command) (rw good (effect-SameReads o m (word % 2 ^ 24)))
    ]
  ]

  program_word-SameReads : (word : ℕ) → SameReads m (program_word cfg m word).0
  unfolding program_word
  program_word-SameReads word = ground arith

  accept_word-SameReads :
      (window word events : ℕ) → SameReads m (accept_word cfg m window word events).machine
  unfolding accept_word accept_command
  accept_word-SameReads window word events =
      ground (arith, command-SameReads word, program_word-SameReads word)

module _ (cfg : Config) (m : Machine) (nibble : ℕ) (accepted : Bool) (events : ℕ) where
  pub accept_write-SameReads :
      (window : ℕ) → SameReads m (accept_write cfg m window nibble accepted events).machine
  unfolding accept_write
  accept_write-SameReads window =
      let m' = record m { write_index = 0; write_word = 0 } in
      let word = bit_or m.write_word (nibble * 2 ^ (4 * m.write_index)) in
      ground (arith, accept_word-SameReads cfg m' window word events)

  -- A word written to window 3 has no effect.
  pub accept_write_idle :
      (window : ℕ)
      → window ≡ 3
      → let m' = (accept_write cfg m window nibble accepted events).machine in
        (m'.engines ≡ m.engines) × (m'.selected ≡ m.selected)
  unfolding accept_write accept_word
  accept_write_idle window three = ground (arith, three)

  pub accept_write-ReadPort :
      (window : ℕ)
      → m.window ≡ window
      → ReadPort m
      → ReadPort (accept_write cfg m window nibble accepted events).machine
  accept_write-ReadPort window at r i q =
      let same = accept_write-SameReads window in
      let (word, p) = r i (sym same.read_engine ∙ q) in
      let (engines, selected) = accept_write_idle window (sym at ∙ p.window) in
      (
        word,
        record {
          window = same.window ∙ p.window;
          selected = selected ∙ p.selected;
          read_word = same.read_word ∙ p.read_word;
          head = rw engines p.head;
        },
      )
