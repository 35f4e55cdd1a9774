-- ===== src/Machine/Reach.antt =====
-- Runs of the machine from reset, and what holds of every engine in each of them.
use ttihp_protocol_emulator.Prelude.{
  ℕ, Bool, true, false, List, [], ◌∷◌, arith, length-append, get_or-replicate,
}
use ttihp_protocol_emulator.Prelude.Bits.{bit-zero, subset_of-and_not}
use ttihp_protocol_emulator.Config.{Config}
use ttihp_protocol_emulator.Engine.{Engine, start}
use ttihp_protocol_emulator.Engine.Control.{IsControlled, step-IsControlled}
use ttihp_protocol_emulator.Engine.Latches.{IsOwner}
use ttihp_protocol_emulator.Engine.Ownership.{step-IsOwner}
use ttihp_protocol_emulator.Machine.{Machine, reset, engine_at}
use ttihp_protocol_emulator.Machine.Tick.{tick}
use ttihp_protocol_emulator.Machine.Acts.{
  Act, begins, commits, owns, starts, stops, clears, marks, flushes, triggers, loads,
}
use ttihp_protocol_emulator.Machine.Rule.{IsKept, Each, edge_P}

-- The inputs of an edge.
pub record Input : Type 0 where
  pub ui : ℕ
  pub pins : ℕ
  pub reset : Bool
  pub enabled : Bool

-- The state after the edges of a list of inputs.
unfoldable pub run : Config → List Input → Machine → Machine
run cfg [] m = m
run cfg (i ∷ is) m = run cfg is (tick cfg m i.ui i.pins i.reset i.enabled).0

-- The rule for runs.
module _ (cfg : Config) (P : Engine → Type 0) (k : IsKept cfg P) where
  reset_P : Each P (reset cfg).engines
  unfolding reset
  reset_P i = rw get_or-replicate k.at_rest

  pub tick_P :
      (m : Machine) (ui pins : ℕ) (reset_in enabled : Bool)
      → Each P m.engines
      → Each P (tick cfg m ui pins reset_in enabled).0.engines
  unfolding tick
  tick_P m ui pins true enabled h = reset_P
  tick_P m ui pins false true h = edge_P cfg P k m ui pins h
  tick_P m ui pins false false h = reset_P

  run_P_from : (is : List Input) (m : Machine) → Each P m.engines → Each P (run cfg is m).engines
  unfolding run
  run_P_from [] m h = h
  run_P_from (i ∷ is) m h = run_P_from is _ (tick_P m i.ui i.pins i.reset i.enabled h)

  pub run_P : (is : List Input) → Each P (run cfg is (reset cfg)).engines
  run_P is = run_P_from is (reset cfg) reset_P

IsControlled-Act :
    (cfg : Config) (e e' : Engine) → Act cfg e e' → IsControlled cfg e → IsControlled cfg e'
unfolding start
IsControlled-Act cfg e e' (begins q) h = ground arith
IsControlled-Act cfg e e' (commits r w f c q) h = ground arith
IsControlled-Act cfg e e' (owns o d r w q) h = ground arith
IsControlled-Act cfg e e' (starts c f q) h = ground arith
IsControlled-Act cfg e e' (stops q) h = ground arith
IsControlled-Act cfg e e' (clears r q) h = ground arith
IsControlled-Act cfg e e' (marks q) h = ground arith
IsControlled-Act cfg e e' (flushes r q) h = ground arith
IsControlled-Act cfg e e' (triggers t r q) h = ground arith
IsControlled-Act cfg e e' (loads w r v f l q) h = ground (arith, length-append e.program (w ∷ []))

IsControlled-kept : (cfg : Config) → IsKept cfg (IsControlled cfg)
IsControlled-kept cfg = record {
  at_rest = ground arith;
  act = IsControlled-Act cfg;
  cycle = λ s t a r e h. step-IsControlled cfg s t a r e h;
  quiet = λ e tx rx event stalled h. ground arith;
}

IsOwner-Act : (cfg : Config) (p : ℕ) (e e' : Engine) → Act cfg e e' → IsOwner p e → IsOwner p e'
unfolding start
IsOwner-Act cfg p e e' (begins q) h = ground arith
IsOwner-Act cfg p e e' (commits r w f c q) h = ground arith
IsOwner-Act cfg p e e' (owns o d r w q) h = ground (arith, subset_of-and_not d o p w)
IsOwner-Act cfg p e e' (starts c f q) h = ground (arith, bit-zero p)
IsOwner-Act cfg p e e' (stops q) h = ground arith
IsOwner-Act cfg p e e' (clears r q) h = ground arith
IsOwner-Act cfg p e e' (marks q) h = ground arith
IsOwner-Act cfg p e e' (flushes r q) h = ground arith
IsOwner-Act cfg p e e' (triggers t r q) h = ground arith
IsOwner-Act cfg p e e' (loads w r v f l q) h = ground arith

IsOwner-kept : (cfg : Config) (p : ℕ) → IsKept cfg (IsOwner p)
IsOwner-kept cfg p = record {
  at_rest = ground (arith, bit-zero p);
  act = IsOwner-Act cfg p;
  cycle = λ s t a r e h. step-IsOwner cfg s t a r p e h;
  quiet = λ e tx rx event stalled h. ground arith;
}

-- In every run from reset every engine satisfies the control invariant: it runs only without a fault
-- and with a committed image, its outputs are released while it stands, a committed image is sealed and
-- within the capacity, and a transfer in progress has edges left.
pub run-IsControlled :
    (cfg : Config) (is : List Input) (i : ℕ)
    → IsControlled cfg (engine_at (run cfg is (reset cfg)) i)
run-IsControlled cfg is i = run_P cfg (IsControlled cfg) (IsControlled-kept cfg) is i

-- In every run from reset a running engine latches a level or a direction only at a pin that it owns, an
-- open-drain pin is owned, and a transfer in progress drives owned pins.
pub run-IsOwner :
    (cfg : Config) (is : List Input) (i p : ℕ) → IsOwner p (engine_at (run cfg is (reset cfg)) i)
run-IsOwner cfg is i p = run_P cfg (IsOwner p) (IsOwner-kept cfg p) is i
