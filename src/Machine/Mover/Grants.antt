-- ===== src/Machine/Mover/Grants.antt =====
-- What a granted move satisfies, and which source the mover serves.
use ttihp_protocol_emulator.Prelude.{
  ℕ, zero, suc, ◌+◌, ◌%◌, ◌<◌, true, false, ◌≡◌, refl, inl, inr, Option, none, some, List, nonempty,
  length, get_or, arith, Option-cases, ◌∙◌, ap, subst,
}
use ttihp_protocol_emulator.Config.{Config}
use ttihp_protocol_emulator.Engine.{Engine, fresh}
use ttihp_protocol_emulator.Machine.{Machine, Route, route_at}
use ttihp_protocol_emulator.Machine.Mover.{Move, Busy, is_engine, grant, scan}

module _ (cfg : Config) (before : List Engine) (busy : Busy) where
  -- The source has a word and is neither reserved by the host nor just edited, its route names the
  -- destination, and the destination has room and takes no word from the host.
  pub record IsGranted (m : Machine) (move : Move) : Type 0 where
    pub route : route_at m move.source ≡ some (record { dest = move.dest; count = move.count })
    pub unedited : is_engine busy.edited move.source ≡ false
    pub unreserved : is_engine busy.reserved move.source ≡ false
    pub word : nonempty (get_or before move.source fresh).rx ≡ true
    pub head : move.word ≡ get_or (get_or before move.source fresh).rx 0 0
    pub room : length (get_or before move.dest fresh).tx < cfg.fifo_words
    pub free : is_engine busy.host_dest move.dest ≡ false

  grant-IsGranted :
      (m : Machine) (source : ℕ) (r : Option Route) (move : Move)
      → route_at m source ≡ r
      → grant cfg before busy source r ≡ some move
      → IsGranted m move × (move.source ≡ source)
  unfolding grant
  grant-IsGranted m source none move q h = cc
  grant-IsGranted m source (some r) move q h = ground arith

  abbrev pub source_at : Machine → ℕ → ℕ
  source_at m offset = (m.round_robin + offset) % cfg.engines

  abbrev pub Refused : Machine → ℕ → Type 0
  Refused m offset =
      grant cfg before busy (source_at m offset) (route_at m (source_at m offset)) ≡ none

  -- The move is granted; its source stands `skipped` behind the cursor, and all sources in between
  -- were refused.
  pub record IsFirst (m : Machine) (n offset : ℕ) (move : Move) : Type 0 where
    pub granted : IsGranted m move
    pub skipped : ℕ
    pub within : skipped < n
    pub source : move.source ≡ source_at m (offset + skipped)
    pub refused : (j : ℕ) → j < skipped → Refused m (offset + j)

  -- A move that the scan of `n` sources from `offset` on finds is granted, and is the first: every source
  -- between the start of the scan and its source was refused.
  pub scan-IsFirst :
      (m : Machine) (n offset : ℕ) (move : Move)
      → scan cfg before busy m n offset ≡ some move
      → IsFirst m n offset move
  unfolding scan
  scan-IsFirst m zero offset move h = absurd (cc)
  scan-IsFirst m (suc n) offset move h =
      let source = source_at m offset in
      elim (Option-cases (grant cfg before busy source (route_at m source))) [
        | inr (mv, q) ↦
            let (granted, from) =
              grant-IsGranted m source (route_at m source) move refl (ground (arith, h, q)) in
            record {
              granted = granted;
              skipped = 0;
              within = omega arith;
              source = from ∙ ap (source_at m) (omega arith);
              refused = λ j below. absurd (omega arith);
            }
        | inl q ↦
            let later = scan-IsFirst m n (suc offset) move (ground (arith, h, q)) in
            record {
              granted = later.granted;
              skipped = suc later.skipped;
              within = omega (arith, later.within);
              source = later.source ∙ ap (source_at m) (omega arith);
              refused = λ j below. skip j below q later.refused;
            }
      ]
    where
      skip :
          {k : ℕ} (j : ℕ)
          → j < suc k
          → Refused m offset
          → ((j : ℕ) → j < k → Refused m (suc offset + j))
          → Refused m (offset + j)
      skip zero below q rest = subst (Refused m) (omega arith) q
      skip (suc j) below q rest = subst (Refused m) (omega arith) (rest j (omega arith))

  -- Where a scan of `n` sources finds no move, each of the sources was refused.
  pub scan-none :
      (m : Machine) (n offset : ℕ)
      → scan cfg before busy m n offset ≡ none
      → (j : ℕ) → j < n
      → Refused m (offset + j)
  unfolding scan
  scan-none m zero offset h j below = absurd (omega arith)
  scan-none m (suc n) offset h zero below =
      let here : Refused m offset = ground (arith, h) in subst (Refused m) (omega arith) here
  scan-none m (suc n) offset h (suc j) below =
      subst (Refused m) (omega arith)
        (scan-none m n (suc offset) (ground (arith, h)) j (omega arith))
