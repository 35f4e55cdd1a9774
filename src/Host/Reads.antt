-- ===== src/Host/Reads.antt =====
-- The reads, the queues and the loading of programs of `ProtocolEmulator` in host/pe_host/host.py.
use Prim.Native.Nat.{min}
use ttihp_protocol_emulator.Prelude.{
  ℕ, zero, suc, ◌-◌, ◌^◌, Bool, true, false, not, ◌&&◌, ◌||◌, Option, none, some, List, [], ◌∷◌,
  ◌++◌, length, any, ltb, leb, ◌==◌, if◌then◌else◌,
}
use ttihp_protocol_emulator.Prelude.Bits.{bit}
use ttihp_protocol_emulator.Prelude.Results.{ok}
use ttihp_protocol_emulator.Host.{
  HostError, w_command, w_program, w_tx, w_rx, op_begin, op_commit, op_own, op_read_select,
  rs_status, rs_timestamp, rs_levels, rs_pc, rs_event, rs_count, rs_held_rx, rs_version,
  own_payload, split_levels, Status, decode_status,
}
use ttihp_protocol_emulator.Host.Driver.{
  Port, Settings, Host, Action, pure, fails, lift, ◌>>=◌, ◌>>◌, tick, write_word, read_word,
  try_write_word, try_read_word,
}
use ttihp_protocol_emulator.Host.Commands.{command, select, use_engine}

module _ {P : Type 0} (port : Port P) (cfg : Settings) where
  -- one cycle in window 1, which drops a stale snapshot
  unfoldable pub drop_snapshot : Action P (Unit {0})
  drop_snapshot h = (ok tt, tick port (2 ^ 6) (record h { window = 1 }))

  unfoldable pub read_status : ℕ → Option ℕ → Action P ℕ
  unfolding command drop_snapshot
  read_status index limit = do
    command port cfg op_read_select index none
    drop_snapshot
    read_word port cfg w_command limit []

  -- a word of the status that is read for an engine
  unfoldable pub read_of : ℕ → Option ℕ → Action P ℕ
  unfolding use_engine read_status
  read_of index engine = do use_engine port cfg engine; read_status index none

  -- `Status(word, self.selected)`
  unfoldable pub with_selected : ℕ → Action P Status
  with_selected word h = (ok (decode_status word (some h.selected)), h)

  unfoldable pub status : Option ℕ → Action P Status
  unfolding read_of with_selected
  status engine = do word ← read_of rs_status engine; with_selected word

  unfoldable pub timestamp : Action P ℕ
  unfolding read_status
  timestamp = read_status rs_timestamp none

  unfoldable pub levels : Option ℕ → Action P (ℕ × ℕ)
  unfolding read_of
  levels engine = do word ← read_of rs_levels engine; pure (split_levels word)

  unfoldable pub pc : Option ℕ → Action P ℕ
  unfolding read_of
  pc engine = read_of rs_pc engine

  unfoldable pub event_pending : Option ℕ → Action P Bool
  unfolding read_of
  event_pending engine = do word ← read_of rs_event engine; pure (bit word 0)

  unfoldable pub completed : Option ℕ → Action P ℕ
  unfolding read_of
  completed engine = read_of rs_count engine

  unfoldable pub held_rx : Option ℕ → Action P ℕ
  unfolding read_of
  held_rx engine = read_of rs_held_rx engine

  unfoldable pub keep_isa : ℕ → Action P ℕ
  keep_isa version h = (ok version, record h { device_isa = some version })

  unfoldable pub isa_version : Action P ℕ
  unfolding read_status keep_isa
  isa_version = do version ← read_status rs_version none; keep_isa version

  unfoldable pub check_isa : Action P ℕ
  unfolding isa_version
  check_isa = do
    version ← isa_version
    if any (λ v. v == version) cfg.isa_versions then pure version else fails HostError.isa_mismatch

  unfoldable pub write_all : ℕ → Option ℕ → List ℕ → Action P (Unit {0})
  write_all window limit [] = pure tt
  write_all window limit (word ∷ words) = do
    write_word port cfg window word limit
    write_all window limit words

  -- `verify`: the status must say that the image is committed and that the engine does not run
  unfoldable pub verify_loaded : Bool → Action P (Unit {0})
  unfolding status
  verify_loaded false = pure tt
  verify_loaded true = do
    s ← status none
    if not s.committed || s.running then fails HostError.host_error else pure tt

  unfoldable pub load_program : ℕ → List ℕ → ℕ → ℕ → Bool → Action P ℕ
  unfolding select command write_all verify_loaded
  load_program engine words owned open_drain verify =
      if not (ltb 0 (length words) && leb (length words) cfg.program_words)
      then fails HostError.value_error
      else do
        select port cfg engine
        command port cfg op_begin 0 none
        payload ← lift (own_payload owned open_drain)
        command port cfg op_own payload none
        write_all w_program none words
        command port cfg op_commit (length words) none
        verify_loaded verify
        pure (length words)

  unfoldable pub tx_write : List ℕ → Option ℕ → Option ℕ → Action P ℕ
  unfolding use_engine write_all
  tx_write words engine limit = do
    use_engine port cfg engine
    write_all w_tx limit words
    pure (length words)

  -- a step that cannot raise
  abbrev pub plain : {A : Type 0} → (Host P → A × Host P) → Action P A
  plain f h = let (a, h') = f h in (ok a, h')

  unfoldable pub tx_try_write : ℕ → ℕ → Option ℕ → Action P Bool
  unfolding use_engine
  tx_try_write word max_wait engine = do
    use_engine port cfg engine
    plain (try_write_word port w_tx word max_wait 8)

  unfoldable pub rx_read : Option ℕ → Option ℕ → Action P ℕ
  unfolding use_engine
  rx_read engine limit = do use_engine port cfg engine; read_word port cfg w_rx limit []

  unfoldable pub read_many : ℕ → Option ℕ → Action P (List ℕ)
  read_many zero limit = pure []
  read_many (suc count) limit = do
    word ← read_word port cfg w_rx limit []
    words ← read_many count limit
    pure (word ∷ words)

  unfoldable pub rx_read_many : ℕ → Option ℕ → Option ℕ → Action P (List ℕ)
  unfolding use_engine read_many
  rx_read_many count engine limit = do use_engine port cfg engine; read_many count limit

  unfoldable pub rx_try_read : ℕ → Option ℕ → Action P (Option ℕ)
  unfolding use_engine
  rx_try_read max_wait engine = do
    use_engine port cfg engine
    plain (try_read_word port w_rx max_wait 8 [])

  -- The loop of `rx_drain`. Each round but the last reads a word, so `limit` + 1 rounds are enough.
  unfoldable pub drain : ℕ → ℕ → List ℕ → Action P (List ℕ)
  unfolding levels read_many
  drain zero limit out = pure out
  drain (suc fuel) limit out =
      if not (ltb (length out) limit)
      then pure out
      else (levels none >>= λ both.
          let more = λ (words : List ℕ). drain fuel limit (out ++ words) in
          if both.1 == 0
          then pure out
          else (read_many (min both.1 (limit - length out)) none >>= more))

  unfoldable pub rx_drain : Option ℕ → ℕ → Action P (List ℕ)
  unfolding use_engine drain
  rx_drain engine limit = do use_engine port cfg engine; drain (suc limit) limit []
