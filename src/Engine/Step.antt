-- ===== src/Engine/Step.antt =====
-- `_step` and `_stalled` of test/model/reference.py.
use ttihp_protocol_emulator.Prelude.{
  ℕ, ◌-◌, ◌/◌, ◌%◌, ◌^◌, Bool, false, not, ◌&&◌, ◌||◌, none, some, nonzero, nonempty, to_ℕ, ltb,
  ◌==◌, is_some, length, get_or, if◌then◌else◌,
}
use ttihp_protocol_emulator.Prelude.Bits.{bit}
use ttihp_protocol_emulator.Config.{Config}
use ttihp_protocol_emulator.Engine.{Engine, Accepted, nothing}
use ttihp_protocol_emulator.Engine.Fused.{transfer_step}
use ttihp_protocol_emulator.Engine.Issue.{issue}

module _ (cfg : Config) (sync2 : ℕ) where
  -- `wait` is not 0 where 1 is taken off
  unfoldable pub step : ℕ → Bool → Bool → Engine → Engine × Accepted
  step timestamp tx_available rx_space engine =
      let e = record engine { stalled = false } in
      if not e.running
      then (e, nothing)
      else if nonzero e.wait
      then (record e { wait = e.wait - 1 }, nothing)
      else elim e.transfer [
        | some t ↦ (transfer_step cfg sync2 e t, nothing)
        | none ↦ issue cfg sync2 timestamp tx_available rx_space e
      ]

  unfoldable pub is_stalled : Engine → Bool
  is_stalled e =
      if not e.running
        || (nonzero e.fault
            || (nonzero e.wait || (is_some e.transfer || not (ltb e.pc (length e.program)))))
      then false
      else (let word = get_or e.program e.pc 0 in
          let op = word / 2 ^ 24 in
          (op == 6 && not (nonempty e.tx))
          || ((op == 7 && (not (nonzero (word % 2 ^ 24)) && length e.rx == cfg.fifo_words))
              || ((op == 13 && not (to_ℕ (bit sync2 (word / 2 ^ 16 % 8)) == word / 2 ^ 8 % 2))
                  || (op == 15 && not e.event))))
