-- ===== src/Host/Driver.antt =====
-- The primitives of `ProtocolEmulator` in host/pe_host/host.py: cycles, windows, and words in nibbles.
-- The port is a parameter: host/pe_host/ports has several.
pub mod Words
use ttihp_protocol_emulator.Prelude.{
  ℕ, zero, suc, ◌+◌, ◌*◌, ◌/◌, ◌%◌, ◌^◌, bit_or, bit_xor, Bool, true, false, not, ◌&&◌, ◌||◌,
  Option, none, some, List, [], ◌∷◌, get_or, ltb, ◌==◌, if◌then◌else◌,
}
use ttihp_protocol_emulator.Prelude.Results.{Result, ok, raise}
use ttihp_protocol_emulator.Host.{HostError, ui_wvalid, ui_rready, uo_wready, uo_rvalid}

-- What a backend implements. `cycle` drives ui_in, samples uo_out and applies one clock edge.
pub record Port (P : Type 0) : Type 0 where
  pub cycle : P → ℕ → P × ℕ
  pub reset : P → ℕ → P
  pub deselect : P → ℕ → P
  pub free_run : P → ℕ → ℕ → P
  pub uo_visible : ℕ

-- the arguments of the constructor, with the figures of `architecture` that the code reads
pub record Settings : Type 0 where
  pub timeout : ℕ
  pub engines : ℕ
  pub program_words : ℕ
  pub isa_versions : List ℕ
  pub strict : Bool

-- the object's state, with the port's own and its `forbidden`
pub record Host (P : Type 0) : Type 0 where
  pub port : P
  pub forbidden : ℕ
  pub uo : ℕ
  pub window : ℕ
  pub selected : ℕ
  pub read_selected : ℕ
  pub device_isa : Option ℕ
  pub first_uo : ℕ
  pub last_command_ok : Option Bool

-- A method call: the state comes back after an exception too.
abbrev pub Action : Type 0 → Type 0 → Type 0
Action P A = Host P → Result HostError A × Host P

module _ {P : Type 0} where
  abbrev pub pure : {A : Type 0} → A → Action P A
  pure a h = (ok a, h)

  abbrev pub fails : {A : Type 0} → HostError → Action P A
  fails e h = (raise e, h)

  infixl 5 ◌>>=◌ ◌>>◌
  abbrev pub ◌>>=◌ : {A B : Type 0} → Action P A → (A → Action P B) → Action P B
  ◌>>=◌ m f h = let (r, h') = m h in elim r [ ok a ↦ f a h' | raise e ↦ (raise e, h') ]

  abbrev pub ◌>>◌ : {A B : Type 0} → Action P A → Action P B → Action P B
  m >> k = m >>= λ _. k

  -- a value that may be an exception
  abbrev pub lift : {A : Type 0} → Result HostError A → Action P A
  lift r h = (r, h)

  -- `ProtocolEmulator(port, ...)`
  abbrev pub new_host : P → Host P
  new_host p = record {
    port = p;
    forbidden = 0;
    uo = 0;
    window = 0;
    selected = 0;
    read_selected = 0;
    device_isa = none;
    first_uo = 0;
    last_command_ok = none;
  }

  -- `_forget`
  unfoldable pub forget : Host P → Host P
  forget h = record h { window = 0; selected = 0; read_selected = 0; uo = 0; forbidden = 0 }

module _ {P : Type 0} (port : Port P) where
  -- one call of the port, its sample kept
  unfoldable pub tick : ℕ → Host P → Host P
  tick ui h = let (p, uo) = port.cycle h.port ui in record h { port = p; uo = uo }

  -- `cycle(ui)`, and with no argument
  unfoldable pub cycle : Option ℕ → Host P → Host P
  unfolding tick
  cycle (some ui) h = tick ui h
  cycle none h = tick (h.window * 2 ^ 6) h

  unfoldable pub idle : ℕ → Host P → Host P
  idle zero h = h
  idle (suc count) h = idle count (tick (h.window * 2 ^ 6) h)

  unfoldable pub reset : ℕ → Host P → Host P
  unfolding forget
  reset cycles h = forget (record h { port = port.reset h.port cycles })

  unfoldable pub deselect : ℕ → Host P → Host P
  unfolding forget
  deselect cycles h = forget (record h { port = port.deselect h.port cycles })

  unfoldable pub set_window : ℕ → Host P → Host P
  set_window window h =
      if h.window == window then h else tick (window * 2 ^ 6) (record h { window = window })

  unfoldable pub bounce : Host P → Host P
  bounce h = set_window (bit_xor h.window 1) h

  -- up to `left` offers of one nibble; whether it was taken, and the first sample of the word so far
  unfoldable pub offer : ℕ → ℕ → Option ℕ → Host P → Bool × Option ℕ × Host P
  offer zero ui first h = (false, first, h)
  offer (suc left) ui first h =
      let h' = tick ui h in
      let sample : Option ℕ = elim first [ none ↦ some h'.uo | some uo ↦ some uo ] in
      let rest = offer left ui sample h' in if uo_wready h'.uo then (true, sample, h') else rest

  abbrev pub write_ui : ℕ → ℕ → ℕ → ℕ
  write_ui window word n = bit_or (bit_or (window * 2 ^ 6) ui_wvalid) (word / 2 ^ (4 * n) % 16)

  -- the nibbles from `n` on, `left` of them
  unfoldable pub send : ℕ → ℕ → ℕ → ℕ → ℕ → Option ℕ → Action P (Option ℕ)
  send zero n timeout window word first h = (ok first, h)
  send (suc left) n timeout window word first h =
      let (taken, first', h') = offer timeout (write_ui window word n) first h in
      let rest = send left (suc n) timeout window word first' h' in
      if taken then rest else (raise HostError.host_timeout, bounce h')

  -- the change of the window at the start of `write_word`, which may give the first sample
  unfoldable pub enter : ℕ → Host P → Option ℕ × Host P
  enter window h =
      if h.window == window
      then (none, h)
      else let h' = tick (window * 2 ^ 6) (record h { window = window }) in (some h'.uo, h')

  -- the sample that is kept as `_first_uo`, and the idle cycle at the end
  unfoldable pub leave : ℕ → Option ℕ → Action P ℕ
  leave window first h =
      let h' =
        tick (window * 2 ^ 6) (record h { first_uo = elim first [ none ↦ 0 | some uo ↦ uo ] }) in
      (ok h'.uo, h')

module _ {P : Type 0} (port : Port P) (cfg : Settings) where
  abbrev pub budget : Option ℕ → ℕ
  budget none = cfg.timeout
  budget (some timeout) = timeout

  unfoldable pub write_word : ℕ → ℕ → Option ℕ → Action P ℕ
  write_word window word limit h =
      let timeout = budget limit in
      if not (ltb window 3 && ltb word (2 ^ 32)) || ltb timeout 1
      then (raise HostError.value_error, h)
      else let (first, h') = enter port window h in
        (send port 8 0 timeout window word first >>= λ first'. leave port window first') h'

module _ {P : Type 0} (port : Port P) where
  -- up to `left` cycles with read-ready; the sample that was valid
  unfoldable pub ask : ℕ → ℕ → Host P → Bool × Host P
  ask zero ui h = (false, h)
  ask (suc left) ui h =
      let h' = tick port ui h in
      let rest = ask left ui h' in if uo_rvalid h'.uo then (true, h') else rest

  abbrev pub read_ui : ℕ → ℕ
  read_ui window = bit_or (window * 2 ^ 6) ui_rready

  -- the pauses before a nibble
  unfoldable pub pause : ℕ → ℕ → Host P → Host P
  pause zero ui h = h
  pause (suc count) ui h = pause count ui (tick port ui h)

  -- the nibbles from `n` on, `left` of them
  unfoldable pub receive : ℕ → ℕ → ℕ → ℕ → List ℕ → ℕ → Action P ℕ
  receive zero n timeout window pauses result h = (ok result, h)
  receive (suc left) n timeout window pauses result h =
      let (valid, h') =
        ask timeout (read_ui window) (pause (get_or pauses n 0) (window * 2 ^ 6) h) in
      let rest =
        receive left (suc n) timeout window pauses (bit_or result (h'.uo % 16 * 2 ^ (4 * n))) h' in
      if valid then rest else (raise HostError.host_timeout, bounce port h')

module _ {P : Type 0} (port : Port P) (cfg : Settings) where
  -- no pauses are an empty list
  unfoldable pub read_word : ℕ → Option ℕ → List ℕ → Action P ℕ
  read_word window limit pauses h =
      let timeout = budget port cfg limit in
      if not (window == 0 || window == 3) || ltb timeout 1
      then (raise HostError.value_error, h)
      else receive port 8 0 timeout window pauses 0 (set_window port window h)

module _ {P : Type 0} (port : Port P) where
  -- the loop of `try_write_word`: whether every nibble was taken
  unfoldable pub try_send : ℕ → ℕ → ℕ → ℕ → ℕ → Host P → Bool × Host P
  try_send zero n max_wait window word h = (true, h)
  try_send (suc left) n max_wait window word h =
      let (taken, _, h') = offer port (suc max_wait) (write_ui port window word n) none h in
      let rest = try_send left (suc n) max_wait window word h' in
      if taken then rest else (false, bounce port h')

  unfoldable pub try_write_word : ℕ → ℕ → ℕ → ℕ → Host P → Bool × Host P
  try_write_word window word max_wait count h =
      let (sent, h') = try_send count 0 max_wait window word (set_window port window h) in
      if not sent
      then (false, h')
      else if ltb count 8
      then (false, bounce port h')
      else (true, tick port (window * 2 ^ 6) h')

  unfoldable pub try_receive : ℕ → ℕ → ℕ → ℕ → List ℕ → ℕ → Host P → Option ℕ × Host P
  try_receive zero n max_wait window pauses result h = (some result, h)
  try_receive (suc left) n max_wait window pauses result h =
      let (valid, h') =
        ask port (suc max_wait) (read_ui port window)
          (pause port (get_or pauses n 0) (window * 2 ^ 6) h) in
      let rest =
        try_receive left (suc n) max_wait window pauses (bit_or result (h'.uo % 16 * 2 ^ (4 * n)))
          h' in
      if valid then rest else (none, bounce port h')

  unfoldable pub try_read_word : ℕ → ℕ → ℕ → List ℕ → Host P → Option ℕ × Host P
  try_read_word window max_wait count pauses h =
      let (got, h') = try_receive count 0 max_wait window pauses 0 (set_window port window h) in
      elim got [
        | none ↦ (none, h')
        | some result ↦ if ltb count 8 then (none, bounce port h') else (some result, h')
      ]
