-- ===== src/Tests.antt =====
-- The theorems at concrete inputs, and runs of the models.
mod Scenario
mod Engines
mod Machines
mod Lines
mod Simulator
mod Assembler
mod Library
mod Schedule
