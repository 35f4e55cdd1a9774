-- ===== src/Tests/Machines.antt =====
-- The theorems on the machine at the session of `Tests.Scenario`, and on a mover with two routes.
use ttihp_protocol_emulator.Prelude.{
  ℕ, ◌≡◌, ◌<◌, length, refl, true, false, none, some, List, [], ◌∷◌, arith, ◌%◌, ◌^◌, ◌*◌, suc,
}
use ttihp_protocol_emulator.Prelude.Bits.{bit}
use ttihp_protocol_emulator.Engine.{Engine, fresh}
use ttihp_protocol_emulator.Engine.Control.{IsControlled}
use ttihp_protocol_emulator.Engine.Latches.{IsOwner}
use ttihp_protocol_emulator.Machine.{Machine, reset, engine_at}
use ttihp_protocol_emulator.Machine.Outputs.{outputs}
use ttihp_protocol_emulator.Machine.Command.{command}
use ttihp_protocol_emulator.Machine.Acts.{MayAct, command-MayAct}
use ttihp_protocol_emulator.Machine.Mover.{Move, Busy, grant, scan}
use ttihp_protocol_emulator.Machine.Mover.Grants.{IsFirst, scan-IsFirst}
use ttihp_protocol_emulator.Machine.Queues.Bounds.{Fits}
use ttihp_protocol_emulator.Machine.Queues.Edges.{run-AllFit}
use ttihp_protocol_emulator.Machine.Reach.{run, run-IsControlled, run-IsOwner}
use ttihp_protocol_emulator.Machine.Isolation.Edges.{run-AreApart}
use ttihp_protocol_emulator.Machine.Isolation.Drivers.{level_of, enable_of, run_pad}
use ttihp_protocol_emulator.Machine.Reading.Port.{IsPresenting}
use ttihp_protocol_emulator.Machine.Reading.Runs.{run-IsPresenting, run_host_rx}
use ttihp_protocol_emulator.Machine.Loader.{IsLoaded, load_image, load_image-IsLoaded}
use ttihp_protocol_emulator.Machine.Ports.{accept_word, accept_write, written}
use ttihp_protocol_emulator.Machine.Writing.{nibble_of, nibbles_sent, nibbles_sent-accept_word}
use ttihp_protocol_emulator.Tests.Scenario.{
  flagship, session, session_owns, reading, reading_engine, reading_ends,
}

abbrev finished : Machine
finished = run flagship session (reset flagship)

run_pad_example :
    (bit (outputs flagship finished 0 false true).uio_out 0 ≡ level_of 0 (engine_at finished 0))
    × (bit (outputs flagship finished 0 false true).uio_oe 0 ≡ enable_of 0 (engine_at finished 0))
run_pad_example = run_pad flagship session 0 0 0 (omega arith) session_owns

run-AreApart_example : ◌≡◌ {A = ℕ} 0 0
run-AreApart_example = run-AreApart flagship 0 session 0 0 session_owns session_owns

run-AllFit_example : Fits 8 (engine_at finished 1)
run-AllFit_example = run-AllFit flagship session 1

run-IsControlled_example : IsControlled flagship (engine_at finished 0)
run-IsControlled_example = run-IsControlled flagship session 0

run-IsOwner_example : IsOwner 0 (engine_at finished 0)
run-IsOwner_example = run-IsOwner flagship session 0 0

-- OWN 3 while engine 1 is selected
command-MayAct_example :
    MayAct flagship (engine_at finished 0) (engine_at (command flagship finished 0x03000003).0 0)
command-MayAct_example = command-MayAct flagship finished 0x03000003 0

-- Two engines have words for engine 2; engine 1 is reserved by the host.
abbrev sources : List Engine
sources = record fresh { rx = 5 ∷ 6 ∷ [] } ∷ record fresh { rx = 7 ∷ [] } ∷ fresh ∷ fresh ∷ []

abbrev busy : Busy
busy = record { reserved = some 1; host_dest = none; edited = none }

abbrev routed : Machine
routed = record (reset flagship) {
  engines = sources;
  routes =
      some (record { dest = 2; count = 3 })
      ∷ some (record { dest = 2; count = 1 })
      ∷ none
      ∷ none
      ∷ [];
  round_robin = 1;
}

abbrev moved : Move
moved = record { source = 0; dest = 2; count = 3; word = 5 }

scan_moves : scan flagship sources busy routed 4 0 ≡ some moved
unfolding scan grant
scan_moves = refl

scan-IsFirst_example : IsFirst flagship sources busy routed 4 0 moved
scan-IsFirst_example = scan-IsFirst flagship sources busy routed 4 0 moved scan_moves

scan_waits : scan flagship sources busy routed 3 0 ≡ none
unfolding scan grant
scan_waits = refl

abbrev read_out : Machine
read_out = run flagship reading (reset flagship)

run-IsPresenting_example : (word : ℕ) × IsPresenting read_out 0 word
run-IsPresenting_example = run-IsPresenting flagship reading 0 reading_engine

run_host_rx_example : (word : ℕ) × IsPresenting read_out 0 word
run_host_rx_example = run_host_rx flagship reading 224 0 reading_ends

-- an image of two words for the selected engine 0 of a machine after reset
four_engines : (reset flagship).selected < length (reset flagship).engines
unfolding reset
four_engines = omega arith

load_image-IsLoaded_example :
    IsLoaded
      (0x04000009 ∷ 0x01000000 ∷ [])
      (reset flagship).selected
      (reset flagship)
      (load_image flagship (0x04000009 ∷ 0x01000000 ∷ []) (reset flagship))
load_image-IsLoaded_example =
    load_image-IsLoaded flagship (reset flagship) (0x04000009 ∷ 0x01000000 ∷ []) four_engines
      (omega arith) (omega arith) (omega arith)

-- the word 17 in eight nibbles at the TX window of engine 0 after reset, with no event and no edited route
abbrev blank : Machine
blank = record (reset flagship) { write_index = 0; write_word = 0 }

nibbles_sent-accept_word_example :
    ((k : ℕ)
      → k < 7
      → accept_write flagship (nibbles_sent flagship 2 17 0 k blank) 2 (nibble_of 17 k) true 0
        ≡ written (record blank { write_index = suc k; write_word = 17 % 2 ^ (4 * suc k) }) 0)
    × (accept_write flagship (nibbles_sent flagship 2 17 0 7 blank) 2 (nibble_of 17 7) true 0
        ≡ accept_word flagship blank 2 17 0)
nibbles_sent-accept_word_example =
    nibbles_sent-accept_word flagship 2 17 0 (reset flagship) (omega arith)

-- and the word reaches the queue of the selected engine
sent_tx : (accept_word flagship blank 2 17 0).host_tx ≡ some (0, 17)
unfolding reset accept_word
sent_tx = refl
