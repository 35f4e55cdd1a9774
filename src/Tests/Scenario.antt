-- ===== src/Tests/Scenario.antt =====
-- A host session on the flagship configuration: engine 0 is given pin 0, loaded and started.
use ttihp_protocol_emulator.Prelude.{
  ℕ, ◌+◌, ◌*◌, ◌/◌, ◌%◌, ◌^◌, ◌≡◌, refl, true, false, some, map, List, [], ◌∷◌, ◌++◌,
}
use ttihp_protocol_emulator.Prelude.Bits.{bit, and_not}
use ttihp_protocol_emulator.Config.{Config, is_supported}
use ttihp_protocol_emulator.Isa.{decode, fields}
use ttihp_protocol_emulator.Isa.Valid.{invalid}
use ttihp_protocol_emulator.Engine.{fail, start}
use ttihp_protocol_emulator.Engine.Fused.{transfer_step}
use ttihp_protocol_emulator.Engine.Issue.{unowned, execute, checked, issue}
use ttihp_protocol_emulator.Engine.Step.{step, is_stalled}
use ttihp_protocol_emulator.Machine.{Machine, reset, engine_at}
use ttihp_protocol_emulator.Machine.Read.{read, status, status_word}
use ttihp_protocol_emulator.Machine.Outputs.{outputs}
use ttihp_protocol_emulator.Machine.Command.{
  host_op, others_own, rejects, effect, command, program_word,
}
use ttihp_protocol_emulator.Machine.Ports.{
  change_window, external_events, capture, accept_read, accept_command, accept_word, accept_write,
}
use ttihp_protocol_emulator.Machine.Mover.{grant, scan, serve}
use ttihp_protocol_emulator.Machine.Queues.{
  engine_edge, all_edges, collect, settle, host_arrival, move_arrival, settle_all,
}
use ttihp_protocol_emulator.Machine.Tick.{restall, clock_edge, engines_edge, host_edge, edge, tick}
use ttihp_protocol_emulator.Machine.Reach.{Input, run}

abbrev pub flagship : Config
flagship = record {
  engines = 4;
  width = 32;
  program_words = 64;
  fifo_words = 8;
  fused = true;
  prefetch = false;
}

flagship_supported : is_supported flagship ≡ true
unfolding is_supported
flagship_supported = refl

-- an edge with a host byte
abbrev pub at : ℕ → Input
at ui = record { ui = ui; pins = 0; reset = false; enabled = true }

-- the eight nibbles of a word, to a window
abbrev pub word_cycles : ℕ → ℕ → List ℕ
word_cycles w word =
    (w * 64 + 16 + word % 16)
    ∷ (w * 64 + 16 + word / 2 ^ 4 % 16)
    ∷ (w * 64 + 16 + word / 2 ^ 8 % 16)
    ∷ (w * 64 + 16 + word / 2 ^ 12 % 16)
    ∷ (w * 64 + 16 + word / 2 ^ 16 % 16)
    ∷ (w * 64 + 16 + word / 2 ^ 20 % 16)
    ∷ (w * 64 + 16 + word / 2 ^ 24 % 16)
    ∷ (w * 64 + 16 + word / 2 ^ 28 % 16)
    ∷ []

-- OWN pin 0; BEGIN; SET 1, DIR 1, WAIT 9; COMMIT 3; START engine 0; three more edges
abbrev pub session : List Input
session = map at (
    word_cycles 0 0x03000001
    ++ (word_cycles 0 0x01000000
        ++ (64
            ∷ (word_cycles 1 0x02000001
                ++ (word_cycles 1 0x03000001
                    ++ (word_cycles 1 0x04000009
                        ++ (0
                            ∷ (word_cycles 0 0x02000003
                                ++ (word_cycles 0 0x04000001 ++ (0 ∷ 0 ∷ 0 ∷ []))))))))))

-- Everything that a run computes with.
unfoldable pub replay : List Input → Machine
unfolding run tick edge host_edge engines_edge clock_edge restall reset change_window
    external_events capture accept_read accept_write accept_word accept_command command program_word
    host_op rejects effect others_own read status status_word outputs grant scan serve engine_edge
    all_edges collect settle settle_all host_arrival move_arrival step is_stalled issue checked
    unowned execute transfer_step invalid decode fields fail start bit and_not
replay is = run flagship is (reset flagship)

session_state :
    let e = engine_at (run flagship session (reset flagship)) 0 in
    (e.running ≡ true) × (e.pc ≡ 3) × (e.values ≡ 1) × (e.direction ≡ 1) × (e.ownership ≡ 1)
unfolding replay
session_state = (refl, refl, refl, refl, refl)

pub session_owns : bit (engine_at (run flagship session (reset flagship)) 0).ownership 0 ≡ true
unfolding replay
session_owns = refl

-- BEGIN; LOAD 1 5, PUSH 0; COMMIT 2; START engine 0; two instructions; window 3; seven nibbles
abbrev pub reading : List Input
reading = map at (
    word_cycles 0 0x01000000
    ++ (64
        ∷ (word_cycles 1 0x13010005
            ++ (word_cycles 1 0x07000000
                ++ (0
                    ∷ (word_cycles 0 0x02000002
                        ++ (word_cycles 0 0x04000001
                            ++ (0 ∷ 0 ∷ 192 ∷ 192 ∷ 224 ∷ 224 ∷ 224 ∷ 224 ∷ 224 ∷ 224 ∷ 224
                                ∷ []))))))))

pub reading_engine : (run flagship reading (reset flagship)).read_engine ≡ some 0
unfolding replay
reading_engine = refl

pub reading_ends : (host_edge flagship (run flagship reading (reset flagship)) 224).host_rx ≡ some 0
unfolding replay
reading_ends = refl
