-- ===== src/Lib.antt =====
-- The protocol processor, after its reference model in test/model/reference.py; the library that drives
-- it from a host, host/pe_host; and the simulator and assembler of the PIO blocks that carry its signals,
-- host/pio.
--
-- The processor has two or four engines that run small programs of 32-bit instructions, each with
-- four registers, a TX and an RX queue, an event mailbox and eight pins that it may own. A host writes
-- words in nibbles to one of four windows: commands (window 0), program words of the selected engine
-- (1), words of its TX queue (2); it reads status (0) and RX words (3) back in nibbles. A mover forwards
-- words between the queues of engines along routes. One call of `Reference.tick` is one clock edge of
-- all of this.
--
-- Parts, and the files that model them:
--   Config            `Config`; `is_supported` is the test of `__post_init__`.
--   Isa, Isa/Valid    `instruction`, `immediate`, the fields of a word and the operand checks of `_step`.
--                     The opcodes 0 to 29 are the constructors of `Opcode`, decoded by a table.
--   Engine            the classes `Engine` and `Transfer`, `_fail`, `_start`; below it Pads (`_drive`,
--                     the shifts), Fused (a transfer in progress), Issue (fetch, checks, execution),
--                     Step (`_step`, `_stalled`).
--   Machine           the state of `Reference` and `reset`; below it Read (`_status`, `_read`), Outputs
--                     (`outputs`), Command (`command`, `program_word`), Ports (windows, triggers, the
--                     read and write ports of `tick`), Mover, Queues (steps, pops, pushes, arrivals) and
--                     Tick (`tick`).
--   LineUnit          parts of test/model/line_unit.py: Crc (`PRESETS`, `crc_step`), State (`LineState`,
--                     the ticker of `_step`, LTIM, the run counters of the stuffing), Transfer
--                     (`_line_transfer` with its helpers, less the event counts for coverage, and the cycle of
--                     `_step` in which one is in progress),
--                     Instructions (`_line_instruction_body`, `_xfer`, `_classic_transfer`).
--   Pio               host/pio/sim.py: the configuration, the registers, the CPU's side of the FIFOs; below it
--                     Helpers (pins, shifts, side-set and delay fields), Execute (`_execute`, an opcode
--                     each), Clock (`StateMachine.clock`, `PioBlock`).
--   PioAsm            host/pio/asm.py: `PIOASMEmit`; below it Passes (the instructions and `asm_pio`),
--                     Disassemble, and Program (`StateMachineConfig.from_program` of sim.py).
--   Host              host/pe_host/protocol.py and errors.py; below it, of host.py, Driver (cycles and words
--                     in nibbles), Commands, Reads (with the loading of programs and the queues) and
--                     Session (fault reports and waiting); of image.py, Sha and Image, with Image/Load for
--                     `load_image` of host.py.
--   PathCheck         host/pio/pathcheck.py: `check_program`; below it Lockstep, the program of
--                     host/pe_host/ports/pio_lockstep.py that it checks.
--   Peers             host/pe_host/peers.py: Uart, Spi, I2c, Pads (`PadCapture`, `Environment`).
--   The other files hold proofs. On single engines: Frame, Control, Latches and Ownership (what a cycle
--   keeps), Cycles and Waiting (how long XFER and WAITPIN take). On machines: Acts and HostSide, the
--   relation that host commands refine; Rule and Reach, the induction rule for runs; Handshake, Isolation,
--   Mover/Grants, Queues/Bounds, Queues/Edges, Reading, Loader, Writing and Atomic. On the line unit: Mirror,
--   Ticks, Counters, Lockstep, Classic and Owned. On the PIO: Valid (what every run keeps), Pins, Shifts, Loops,
--   PioAsm/Fields and PioAsm/Labels, PathCheck/Ends, Rules, Search and Paths. On the library: Encoders,
--   Driver/Words, Commands/Tracking, Image/Fits, Image/Unchanged, I2c/Driving and I2c/Masks. Tests holds concrete runs.
--
-- The parts meet in three places. Host drives a port that is a parameter, so it runs over any chip; its
-- encoders and its record of the chip are compared with `command` and the status word of Machine. PioAsm
-- makes the words that Pio executes, and the configuration that it runs with. Peers are what the pads of
-- either are wired to; they see levels only.
--
-- A method that changes the engine or the machine returns the new one. The order inside `edge` is the
-- order of `tick`: window, triggers, capture, read port, write port, mover, engines, queues, clock; what
-- the code samples before it writes is passed on as the state before. A command is two functions, as the
-- code is: `rejects`, its `reject`, and `effect`, its assignments where `reject` is false.
--
-- Numbers are unbounded as in Python; the widths are the masks of the code (`& self.mask` is
-- `% 2 ^ width`). `remaining - 1`, `wait - 1` and `repeat - 1` stand where the code has tested that the
-- number is not 0, or where IsControlled shows it. An index out of range, which is an exception in Python,
-- reads as an engine at rest, no route or 0. The sets of started and stopped engines are membership
-- tests.
--
-- An exception is a value: `Result` in Pio, PioAsm and Image, where a raise gives up the state, and
-- `Action` in Host, where the object keeps what was done before it. Errors have a name for each place or
-- class that raises them, and none of their text. An index out of range and a shift by a negative count
-- are errors too. An instruction word of the PIO is read by division and remainder where the code shifts
-- and masks. Numbers that the code takes from a caller are not negative.
--
-- Loops run over a list or a count; those that wait run over the time-out of the code. `drain` of
-- Host/Reads runs over the limit of words that the code counts. `decimal` runs over the number
-- that it prints. The search of PathCheck runs over more rounds than a program has states and successors.
--
-- Not modelled: the variants (test/model/variant.py) and the rest of the step that puts the parts of
-- LineUnit together; the drivers and decoders of the models (test/model/host.py, scoreboards.py); of host/pe_host the
-- ports (access to pins; of the lockstep port only its program), the self test, the log, the reading of
-- files, and texts for people (repr, describe, messages); of host/pio the board, the replays and the timing reports; the timing tools
-- (tools/timing); and everything else that runs tools, boards or files. Clock dividers of the PIO are whole.
pub mod Prelude
pub mod Config
pub mod Isa
pub mod Engine
pub mod Machine
pub mod LineUnit
pub mod Pio
pub mod PioAsm
pub mod Host
pub mod Peers
pub mod PathCheck
pub mod Tests
