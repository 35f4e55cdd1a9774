-- ===== src/Machine/Mover.antt =====
-- The mover of `tick` in test/model/reference.py: at most one word from an RX to a TX queue, on the
-- queues as they were before the edge.
pub mod Grants
use ttihp_protocol_emulator.Prelude.{
  ℕ, zero, suc, ◌+◌, ◌-◌, ◌%◌, Bool, false, not, ◌&&◌, Option, none, some, List, nonempty, ltb,
  ◌==◌, length, get_or, set, if◌then◌else◌,
}
use ttihp_protocol_emulator.Config.{Config}
use ttihp_protocol_emulator.Engine.{Engine, fresh}
use ttihp_protocol_emulator.Machine.{Machine, Route, route_at}

-- `dma`, with the count of its route
pub record Move : Type 0 where
  pub source : ℕ
  pub dest : ℕ
  pub count : ℕ
  pub word : ℕ

-- `o == i` for an engine number that may be `None`
abbrev pub is_engine : Option ℕ → ℕ → Bool
is_engine none i = false
is_engine (some j) i = j == i

abbrev pub host_dest : Option (ℕ × ℕ) → Option ℕ
host_dest none = none
host_dest (some (dest, _)) = some dest

-- What the mover must keep off: `reserved`, `host_tx[0]` and `edited_route`.
pub record Busy : Type 0 where
  pub reserved : Option ℕ
  pub host_dest : Option ℕ
  pub edited : Option ℕ

module _ (cfg : Config) (before : List Engine) (busy : Busy) where
  -- the move from one source, if its route can be served
  unfoldable pub grant : ℕ → Option Route → Option Move
  grant source none = none
  grant source (some r) =
      if not (is_engine busy.edited source)
        && (nonempty (get_or before source fresh).rx
            && (not (is_engine busy.reserved source)
                && (ltb (length (get_or before r.dest fresh).tx) cfg.fifo_words
                    && not (is_engine busy.host_dest r.dest))))
      then some (record {
        source = source;
        dest = r.dest;
        count = r.count;
        word = get_or (get_or before source fresh).rx 0 0;
      })
      else none

  -- the first source from the round-robin cursor on that can be served; `n` sources are left
  unfoldable pub scan : Machine → ℕ → ℕ → Option Move
  scan m zero offset = none
  scan m (suc n) offset =
      let source = (m.round_robin + offset) % cfg.engines in
      let rest = scan m n (suc offset) in
      elim (grant source (route_at m source)) [ some move ↦ some move | none ↦ rest ]

  -- the route is counted down, and the cursor is set behind the source
  unfoldable pub serve : Machine → Option Move → Machine
  serve m none = m
  serve m (some move) = record m {
    routes = set m.routes move.source (
        if ltb 1 move.count
        then some (record { dest = move.dest; count = move.count - 1 })
        else none);
    round_robin = (move.source + 1) % cfg.engines;
  }
