-- ===== src/Machine/Read.antt =====
-- `_status` and `_read` of test/model/reference.py: what the host reads.
use ttihp_protocol_emulator.Prelude.{
  ℕ, ◌*◌, ◌^◌, bit_or, Bool, true, false, ◌&&◌, none, some, to_ℕ, nonzero, nonempty, ◌==◌, length,
  get_or, if◌then◌else◌,
}
use ttihp_protocol_emulator.Engine.{Engine}
use ttihp_protocol_emulator.Engine.Pads.{reg}
use ttihp_protocol_emulator.Machine.{Machine, engine_at}

-- the word of `read_select` 0
unfoldable pub status_word : Engine → ℕ
status_word e =
    bit_or
      (bit_or (bit_or (bit_or (to_ℕ e.running) (to_ℕ e.committed * 2)) (to_ℕ e.stalled * 2 ^ 2))
        (to_ℕ (nonzero e.fault) * 2 ^ 3))
      (e.fault * 2 ^ 8)

unfoldable pub status : Machine → ℕ
status m =
    let e = engine_at m m.selected in
    if m.read_select == 0
    then status_word e
    else if m.read_select == 1
    then m.timestamp
    else if m.read_select == 2
    then bit_or (length e.tx) (length e.rx * 2 ^ 16)
    else if m.read_select == 3
    then e.pc
    else if m.read_select == 4
    then to_ℕ e.event
    else if m.read_select == 5
    then e.completed
    else if m.read_select == 6
    then reg e 1
    else 2

-- whether there is a word, the word, and the nibble that is next
unfoldable pub read : Machine → ℕ → Bool × ℕ × ℕ
read m window =
    let current = window == m.window in
    let index = if current then m.read_index else 0 in
    let fresh_word =
      if window == 0
      then (true, status m, 0)
      else if window == 3 && nonempty (engine_at m m.selected).rx
      then (true, get_or (engine_at m m.selected).rx 0 0, 0)
      else (false, 0, 0) in
    if current
    then (elim m.read_word [ some word ↦ (true, word, index) | none ↦ fresh_word ])
    else fresh_word
