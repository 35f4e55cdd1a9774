-- ===== src/Host/Commands.antt =====
-- The commands of `ProtocolEmulator` in host/pe_host/host.py.
pub mod Tracking
use ttihp_protocol_emulator.Prelude.{
  ℕ, ◌+◌, ◌-◌, ◌*◌, ◌/◌, ◌%◌, ◌^◌, bit_or, Bool, true, false, not, ◌&&◌, ◌||◌, Option, none, some,
  is_some, ltb, leb, ◌==◌, if◌then◌else◌,
}
use ttihp_protocol_emulator.Prelude.Bits.{bit, and_not}
use ttihp_protocol_emulator.Prelude.Results.{Result, ok, raise}
use ttihp_protocol_emulator.Host.{
  HostError, uo_fault, w_command, op_select, op_begin, op_commit, op_own, op_start, op_stop,
  op_route, op_clear, op_read_select, op_event, op_flush, op_trigger, rs_version, clear_host_fault,
  command_word, own_payload, route_payload, trigger_payload,
}
use ttihp_protocol_emulator.Host.Driver.{
  Port, Settings, Host, Action, pure, fails, lift, ◌>>=◌, ◌>>◌, write_word,
}

-- `_static_acceptance`
unfoldable pub static_acceptance : Settings → ℕ → ℕ → Option Bool
static_acceptance cfg op payload =
    if op == op_select
    then some (ltb payload cfg.engines)
    else if op == op_read_select
    then some (leb payload rs_version)
    else none

-- whether the command was accepted: the port's visible bits, the sample after the word and the first one
unfoldable pub acceptance : Settings → ℕ → ℕ → ℕ → ℕ → ℕ → Option Bool
acceptance cfg visible first_uo op payload after =
    let known = static_acceptance cfg op payload in
    if is_some known || not (uo_fault visible)
    then known
    else if uo_fault after
    then (if uo_fault first_uo then none else some false)
    else some true

abbrev pub is_false : Option Bool → Bool
is_false (some b) = not b
is_false none = false

-- the library's record after a command that is not known to be rejected
unfoldable pub record_command : {P : Type 0} → ℕ → ℕ → Host P → Host P
record_command op payload h =
    if op == op_select
    then record h { selected = payload }
    else if op == op_read_select
    then record h { read_selected = payload }
    else if op == op_own
    then record h {
      forbidden = bit_or h.forbidden (and_not (payload % 256) (payload / 2 ^ 8 % 256));
    }
    else h

module _ {P : Type 0} (port : Port P) (cfg : Settings) where
  -- `command` once the word is written; the log is left out
  unfoldable pub conclude : ℕ → ℕ → Option Bool → ℕ → Action P (Option Bool)
  conclude op payload check after h =
      let accepted = acceptance cfg port.uo_visible h.first_uo op payload after in
      let h' = record h { last_command_ok = accepted } in
      let strict : Bool = elim check [ none ↦ cfg.strict | some b ↦ b ] in
      if is_false accepted
      then (if strict then (raise HostError.command_rejected, h') else (ok accepted, h'))
      else (ok accepted, record_command op payload h')

  unfoldable pub command : ℕ → ℕ → Option Bool → Action P (Option Bool)
  command op payload check = do
    word ← lift (command_word op payload)
    after ← write_word port cfg w_command word none
    conclude op payload check after

  -- `_mask` and `_engine`
  unfoldable pub mask_of : ℕ → Action P ℕ
  mask_of mask h =
      (if leb mask (2 ^ cfg.engines - 1) then ok mask else raise HostError.value_error, h)

  unfoldable pub engine_of : ℕ → Action P ℕ
  engine_of engine h =
      (if ltb engine cfg.engines then ok engine else raise HostError.value_error, h)

  -- `self.command(op, payload)`
  abbrev pub run_op : ℕ → ℕ → Action P (Option Bool)
  run_op op payload = command op payload none

  unfoldable pub select : ℕ → Action P (Option Bool)
  unfolding engine_of command
  select engine = do n ← engine_of engine; run_op op_select n

  -- `use`, with `none` for an engine that is not given
  unfoldable pub use_engine : Option ℕ → Action P (Unit {0})
  unfolding select
  use_engine none h = (ok tt, h)
  use_engine (some engine) h =
      if engine == h.selected then (ok tt, h) else (select engine >>= λ _. pure tt) h

  unfoldable pub begin : Option ℕ → Action P (Option Bool)
  unfolding use_engine command
  begin engine = do use_engine engine; run_op op_begin 0

  unfoldable pub commit : ℕ → Action P (Option Bool)
  unfolding command
  commit count =
      if not (ltb 0 count && leb count 0xffff)
      then fails HostError.value_error
      else run_op op_commit count

  unfoldable pub own : ℕ → ℕ → Option ℕ → Action P (Option Bool)
  unfolding use_engine command
  own pins open_drain engine = do
    use_engine engine
    payload ← lift (own_payload pins open_drain)
    run_op op_own payload

  unfoldable pub start : ℕ → Action P (Option Bool)
  unfolding mask_of command
  start mask = do m ← mask_of mask; run_op op_start m

  -- `stop()` stops every engine
  unfoldable pub stop : Option ℕ → Action P (Option Bool)
  unfolding mask_of command
  stop none = run_op op_stop (2 ^ cfg.engines - 1)
  stop (some mask) = do m ← mask_of mask; run_op op_stop m

  unfoldable pub route : ℕ → ℕ → ℕ → Bool → Action P (Option Bool)
  unfolding engine_of command
  route source destination count enable = do
    engine_of source
    engine_of destination
    payload ← lift (route_payload source destination count enable)
    run_op op_route payload

  unfoldable pub unroute : ℕ → Action P (Option Bool)
  unfolding engine_of command
  unroute source = do
    n ← engine_of source
    payload ← lift (route_payload n 0 0 false)
    run_op op_route payload

  unfoldable pub clear : ℕ → Bool → Action P (Option Bool)
  unfolding mask_of command
  clear mask host_fault = do
    m ← mask_of mask
    run_op op_clear (bit_or m (if host_fault then clear_host_fault else 0))

  unfoldable pub event : ℕ → Action P (Option Bool)
  unfolding mask_of command
  event mask = do m ← mask_of mask; run_op op_event m

  unfoldable pub flush : Option ℕ → Action P (Option Bool)
  unfolding use_engine command
  flush engine = do use_engine engine; run_op op_flush 0

  unfoldable pub trigger : ℕ → ℕ → Bool → Option ℕ → Action P (Option Bool)
  unfolding use_engine command
  trigger pin mode enable engine = do
    use_engine engine
    payload ← lift (trigger_payload pin mode enable)
    run_op op_trigger payload

  unfoldable pub disable_trigger : Option ℕ → Action P (Option Bool)
  unfolding use_engine command
  disable_trigger engine = do use_engine engine; run_op op_trigger 0
