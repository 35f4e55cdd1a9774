-- ===== src/Host/Commands/Tracking.antt =====
-- What the library records of a command of host/pe_host/host.py is what the chip does with it.
use ttihp_protocol_emulator.Prelude.{
  ℕ, zero, suc, Bool, ◌&&◌, Option, ◌≡◌, sym, ◌∙◌, arith, ltb, leb, ◌==◌, if◌then◌else◌,
}
use ttihp_protocol_emulator.Prelude.Results.{ok}
use ttihp_protocol_emulator.Config.{Config}
use ttihp_protocol_emulator.Machine.{Machine}
use ttihp_protocol_emulator.Machine.Command
use ttihp_protocol_emulator.Machine.Command.{host_op, rejects, effect}
use ttihp_protocol_emulator.Host.Encoders.{decided, command_word-fields}
use ttihp_protocol_emulator.Host.{command_word}
use ttihp_protocol_emulator.Host.Driver.{Port, Settings, Host}
use ttihp_protocol_emulator.Host.Commands.{static_acceptance, acceptance, record_command, conclude}

-- The chip's two selections after a command.
decided-selection :
    (cfg : Config) (m : Machine) (op payload : ℕ)
    → let m' = (decided cfg m op payload).0 in
      (m'.selected ≡ (if op == 0 && ltb payload cfg.engines then payload else m.selected))
      × (m'.read_select ≡ (if op == 8 && leb payload 7 then payload else m.read_select))
unfolding host_op rejects effect
decided-selection cfg m zero payload = (ground arith, ground arith)
decided-selection cfg m (suc zero) payload = (ground arith, ground arith)
decided-selection cfg m (suc (suc zero)) payload = (ground arith, ground arith)
decided-selection cfg m (suc (suc (suc zero))) payload = (ground arith, ground arith)
decided-selection cfg m (suc (suc (suc (suc zero)))) payload = (ground arith, ground arith)
decided-selection cfg m (suc (suc (suc (suc (suc zero))))) payload = (ground arith, ground arith)
decided-selection cfg m (suc (suc (suc (suc (suc (suc zero)))))) payload =
    (ground arith, ground arith)
decided-selection cfg m (suc (suc (suc (suc (suc (suc (suc zero))))))) payload =
    (ground arith, ground arith)
decided-selection cfg m (suc (suc (suc (suc (suc (suc (suc (suc zero)))))))) payload =
    (ground arith, ground arith)
decided-selection cfg m (suc (suc (suc (suc (suc (suc (suc (suc (suc zero))))))))) payload =
    (ground arith, ground arith)
decided-selection cfg m (suc (suc (suc (suc (suc (suc (suc (suc (suc (suc zero)))))))))) payload =
    (ground arith, ground arith)
decided-selection cfg m (suc (suc (suc (suc (suc (suc (suc (suc (suc (suc (suc zero)))))))))))
      payload =
    (ground arith, ground arith)
decided-selection cfg m (suc (suc (suc (suc (suc (suc (suc (suc (suc (suc (suc (suc n))))))))))))
      payload =
    (ground arith, ground arith)

-- The library's two selections after the same command.
conclude-selection :
    {P : Type 0} (port : Port P) (cfg : Settings) (op payload after : ℕ) (check : Option Bool)
    (h : Host P)
    → let h' = (conclude port cfg op payload check after h).1 in
      (h'.selected ≡ (if op == 0 && ltb payload cfg.engines then payload else h.selected))
      × (h'.read_selected ≡ (if op == 8 && leb payload 7 then payload else h.read_selected))
unfolding conclude acceptance static_acceptance record_command
conclude-selection port cfg op payload after check h = (ground arith, ground arith)

-- Once its word is written, a command leaves the library's record of the selected engine and of
-- READ_SELECT equal to the chip's, if they were equal before: for every command, accepted or rejected,
-- whatever the port sees of the fault pin, and whether an exception is raised or not.
pub conclude-command :
    {P : Type 0} (port : Port P) (cfg : Config) (settings : Settings) (m : Machine) (h : Host P)
    (op payload word after : ℕ) (check : Option Bool)
    → settings.engines ≡ cfg.engines
    → command_word op payload ≡ ok word
    → h.selected ≡ m.selected
    → h.read_selected ≡ m.read_select
    → let h' = (conclude port settings op payload check after h).1 in
      let m' = (Command.command cfg m word).0 in
      (h'.selected ≡ m'.selected) × (h'.read_selected ≡ m'.read_select)
conclude-command port cfg settings m h op payload word after check engines made same same' =
    let fields = command_word-fields op payload word made in
    let decoded : Command.command cfg m word ≡ decided cfg m op payload =
      unfold Command.command in (λ i. decided cfg m (fields.0 i) (fields.1 i)) in
    let chip = decided-selection cfg m op payload in
    let ours = conclude-selection port settings op payload after check h in
    rw decoded (ours.0 ∙ rw (engines, same) (sym chip.0), ours.1 ∙ rw same' (sym chip.1))
