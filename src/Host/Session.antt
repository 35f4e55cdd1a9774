-- ===== src/Host/Session.antt =====
-- Fault reports and waiting of `ProtocolEmulator` in host/pe_host/host.py.
use ttihp_protocol_emulator.Prelude.{
  ℕ, zero, suc, ◌*◌, ◌^◌, bit_or, Bool, true, false, not, ◌&&◌, Option, none, some, List, [], ◌∷◌,
  nonempty, ◌==◌, if◌then◌else◌,
}
use ttihp_protocol_emulator.Prelude.Results.{ok, raise}
use ttihp_protocol_emulator.Host.{HostError, uo_irq, uo_fault, rs_status, Status, decode_status}
use ttihp_protocol_emulator.Host.Driver.{
  Port, Settings, Host, Action, pure, fails, ◌>>=◌, ◌>>◌, tick, idle, set_window,
}
use ttihp_protocol_emulator.Host.Commands.{select, clear}
use ttihp_protocol_emulator.Host.Reads.{read_status}

-- `fault_pin` is none on a port that does not see uo[7]; `host_fault` is none where it is unknown
pub record FaultReport : Type 0 where
  pub statuses : List Status
  pub fault_pin : Option Bool
  pub faulted : List Status
  pub host_fault : Option Bool

-- `[s for s in statuses if s.faulted]`
unfoldable pub faulted_of : List Status → List Status
faulted_of [] = []
faulted_of (s ∷ ss) = if s.faulted then s ∷ faulted_of ss else faulted_of ss

unfoldable pub host_fault_of : Option Bool → Bool → Option Bool
host_fault_of none any_faulted = none
host_fault_of (some false) any_faulted = some false
host_fault_of (some true) any_faulted = if not any_faulted then some true else none

unfoldable pub fault_report_of : List Status → Option Bool → FaultReport
unfolding faulted_of host_fault_of
fault_report_of statuses fault_pin =
    let faulted = faulted_of statuses in
    record {
      statuses = statuses;
      fault_pin = fault_pin;
      faulted = faulted;
      host_fault = host_fault_of fault_pin (nonempty faulted);
    }

abbrev pub is_true : Option Bool → Bool
is_true (some b) = b
is_true none = false

-- `ok`
unfoldable pub report_ok : FaultReport → Bool
report_ok r = not (is_true r.fault_pin) && not (nonempty r.faulted)

module _ {P : Type 0} (port : Port P) (cfg : Settings) where
  -- the statuses of `left` engines from the engine `n` on
  unfoldable pub read_statuses : ℕ → ℕ → Action P (List Status)
  unfolding select read_status
  read_statuses zero n = pure []
  read_statuses (suc left) n = do
    select port cfg n
    word ← read_status port cfg rs_status none
    rest ← read_statuses left (suc n)
    pure (decode_status word (some n) ∷ rest)

  -- selects the engine that was selected before
  unfoldable pub reselect : ℕ → Action P (Unit {0})
  unfolding select
  reselect previous h =
      if previous == h.selected then (ok tt, h) else (select port cfg previous >>= λ _. pure tt) h

  unfoldable pub report : List Status → Action P FaultReport
  unfolding fault_report_of
  report statuses h = (
    ok (fault_report_of statuses (if uo_fault port.uo_visible then some (uo_fault h.uo) else none)),
    h,
  )

  unfoldable pub fault_report : Action P FaultReport
  unfolding read_statuses reselect report
  fault_report h =
      let previous = h.selected in
      (do statuses ← read_statuses cfg.engines 0; reselect previous; report statuses) h

  -- `for status in report.faulted: mask |= 1 << status.engine`
  unfoldable pub mask_of_faulted : List Status → ℕ → ℕ
  mask_of_faulted [] mask = mask
  mask_of_faulted (s ∷ ss) mask =
      mask_of_faulted ss (elim s.engine [ none ↦ mask | some n ↦ bit_or mask (2 ^ n) ])

  unfoldable pub clear_faults : Option ℕ → Bool → Action P (Option Bool)
  unfolding fault_report mask_of_faulted clear
  clear_faults none host_fault = do
    r ← fault_report
    clear port cfg (mask_of_faulted r.faulted 0) host_fault
  clear_faults (some mask) host_fault = clear port cfg mask host_fault

  unfoldable pub raise_on_fault : Action P (Unit {0})
  unfolding fault_report
  raise_on_fault h =
      if uo_fault h.uo then (fault_report >>= λ r. fails HostError.engine_fault) h else (ok tt, h)

  -- `timeout` rounds of `wait_until`, `n` of them gone; the predicate may look at the host's state
  unfoldable pub wait_until : (Host P → Bool) → ℕ → ℕ → Action P ℕ
  unfolding idle
  wait_until predicate zero n h = (raise HostError.host_timeout, h)
  wait_until predicate (suc left) n h =
      let rest = wait_until predicate left (suc n) (idle port 1 h) in
      if predicate h then (ok n, h) else rest

  unfoldable pub await_irq : ℕ → ℕ → Action P ℕ
  unfolding idle
  await_irq zero n h = (raise HostError.host_timeout, h)
  await_irq (suc left) n h =
      let h' = idle port 1 h in
      let rest = await_irq left (suc n) h' in if uo_irq h'.uo then (ok n, h') else rest

  unfoldable pub wait_irq : Option ℕ → Action P ℕ
  unfolding await_irq
  wait_irq limit h =
      let timeout : ℕ = elim limit [ none ↦ cfg.timeout | some t ↦ t ] in
      if not (uo_irq port.uo_visible)
      then (raise HostError.host_error, h)
      else await_irq timeout 0 h

  -- the sample of each cycle is tested, and a fault ends the run
  unfoldable pub run_from : ℕ → ℕ → Bool → Action P ℕ
  unfolding raise_on_fault
  run_from ui zero watch h = (ok h.uo, h)
  run_from ui (suc left) watch h =
      let h' = tick port ui h in
      let rest = run_from ui left watch in
      if watch && uo_fault h'.uo then (raise_on_fault >>= λ _. rest) h' else rest h'

  unfoldable pub run : ℕ → Bool → Action P ℕ
  unfolding run_from
  run cycles watch h = run_from (h.window * 2 ^ 6) cycles watch h

  -- with a frequency the port runs by itself, and no sample is taken
  unfoldable pub free_run : ℕ → ℕ → Action P ℕ
  unfolding set_window idle
  free_run cycles hz h =
      let h' = set_window port 0 h in
      if hz == 0
      then (let done = idle port cycles h' in (ok done.uo, done))
      else (ok h'.uo, record h' { port = port.free_run h'.port cycles hz })
