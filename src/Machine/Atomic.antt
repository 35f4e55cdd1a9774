-- ===== src/Machine/Atomic.antt =====
-- A command whose test for rejection fails has its effect.
use ttihp_protocol_emulator.Prelude.{ℕ, ◌/◌, ◌%◌, ◌^◌, true, false, ◌≡◌, refl, some}
use ttihp_protocol_emulator.Config.{Config}
use ttihp_protocol_emulator.Machine.{Machine}
use ttihp_protocol_emulator.Machine.Command.{HostOp, host_op, rejects, effect, command}

module _ (cfg : Config) (m : Machine) (word : ℕ) where
  pub command-accepts :
      (o : HostOp)
      → host_op (word / 2 ^ 24) ≡ some o
      → rejects cfg o m (word % 2 ^ 24) ≡ false
      → command cfg m word ≡ (effect o m (word % 2 ^ 24), true)
  unfolding command
  command-accepts o q good = rw (q, command) (rw good refl)
