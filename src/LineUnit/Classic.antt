-- ===== src/LineUnit/Classic.antt =====
-- A classic transfer with the line unit, against the transfer of the engine without it.
use ttihp_protocol_emulator.Config.{Config}
use ttihp_protocol_emulator.Engine.{Transfer}
