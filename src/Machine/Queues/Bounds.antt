-- ===== src/Machine/Queues/Bounds.antt =====
-- No queue ever holds more than `fifo_words` words.
use ttihp_protocol_emulator.Prelude.{
  ℕ, ◌<◌, ◌≤◌, true, ◌&&◌, ◌≡◌, ◌≢◌, refl, inl, inr, Option, List, [], ◌∷◌, nonempty, length,
  length-append, popleft, get_or, arith, Bool-cases, ltb, ◌==◌, get_or-set, ==_ne, set,
}
use ttihp_protocol_emulator.Config.{Config}
use ttihp_protocol_emulator.Engine.{Engine, Accepted, fresh, start}
use ttihp_protocol_emulator.Engine.Pads.{reg}
use ttihp_protocol_emulator.Engine.Frame.{step-Keeps}
use ttihp_protocol_emulator.Machine.{Machine}
use ttihp_protocol_emulator.Machine.Mover.{Move}
use ttihp_protocol_emulator.Machine.Queues.{engine_edge, settle, append_tx}
use ttihp_protocol_emulator.Machine.Acts.{
  MayAct, begins, commits, owns, starts, stops, clears, marks, flushes, triggers, loads,
}

pub record Fits (n : ℕ) (e : Engine) : Type 0 where
  pub tx : length e.tx ≤ n
  pub rx : length e.rx ≤ n

-- A host act adds no word to a queue.
pub Act_queues :
    (cfg : Config) (e e' : Engine)
    → MayAct cfg e e'
    → (length e'.tx ≤ length e.tx) × (length e'.rx ≤ length e.rx)
unfolding start
Act_queues cfg e e' (inl q) = ground arith
Act_queues cfg e e' (inr (begins q)) = ground arith
Act_queues cfg e e' (inr (commits r w f c q)) = ground arith
Act_queues cfg e e' (inr (owns o d r w q)) = ground arith
Act_queues cfg e e' (inr (starts c f q)) = ground arith
Act_queues cfg e e' (inr (stops q)) = ground arith
Act_queues cfg e e' (inr (clears r q)) = ground arith
Act_queues cfg e e' (inr (marks q)) = ground arith
Act_queues cfg e e' (inr (flushes r q)) = ground arith
Act_queues cfg e e' (inr (triggers t r q)) = ground arith
Act_queues cfg e e' (inr (loads w r v f l q)) = ground arith

length-popleft {ℓ} : {A : Type ℓ} (xs : List A) → length (popleft xs) ≤ length xs
length-popleft [] = omega arith
length-popleft (x ∷ xs) = omega arith

settle_fits :
    (n : ℕ) (host_rx : Option ℕ) (move : Option Move) (signals i : ℕ) (x : Engine × Accepted)
    → length x.0.rx ≤ n
    → (x.1.push ≡ true → length x.0.rx < n)
    → let e' = settle host_rx move signals i x in
      (length e'.tx ≤ length x.0.tx) × (length e'.rx ≤ n)
unfolding settle
settle_fits n host_rx move signals i (e, change) fits room = ground (
  arith,
  length-popleft e.tx,
  length-popleft e.rx,
  length-append e.rx (reg e 1 ∷ []),
  length-append (popleft e.rx) (reg e 1 ∷ []),
)

module _ (cfg : Config) (before : List Engine) (m : Machine) (i : ℕ) (e : Engine) where
  -- The engine's own step adds at most one word, to an RX queue that had room before the edge.
  pub engine_edge_queues :
      let x = engine_edge cfg before m i e in
      (x.0.tx ≡ e.tx)
      × (x.0.rx ≡ e.rx)
      × (x.1.push ≡ true → ltb (length (get_or before i fresh).rx) cfg.fifo_words ≡ true)
  unfolding engine_edge
  engine_edge_queues =
      let was = get_or before i fresh in
      let e' = record e { event = was.event } in
      ground (
        arith,
        step-Keeps cfg m.sync2 m.timestamp (nonempty was.tx) (ltb (length was.rx) cfg.fifo_words)
            e',
      )

  pub settle_queues :
      (host_rx : Option ℕ) (move : Option Move) (signals : ℕ)
      → length e.tx ≤ length (get_or before i fresh).tx
      → length e.rx ≤ length (get_or before i fresh).rx
      → Fits cfg.fifo_words (get_or before i fresh)
      → let e' = settle host_rx move signals i (engine_edge cfg before m i e) in
        Fits cfg.fifo_words e' × (length e'.tx ≤ length (get_or before i fresh).tx)
  settle_queues host_rx move signals ht hr fits =
      let x = engine_edge cfg before m i e in
      let (tx, rx, room) = engine_edge_queues in
      let (short, bounded) =
        settle_fits cfg.fifo_words host_rx move signals i x (ground (arith, rx, fits.rx))
          (λ q. ground (arith, rx, room q)) in
      (record { tx = ground (arith, short, tx, fits.tx); rx = bounded }, ground (arith, short, tx))

-- A word that is brought to a queue with room leaves the queues in bounds; engine `k` is told apart
-- by its length alone.
module _ (n : ℕ) (es : List Engine) (k : ℕ) (word : ℕ) where
  pub arrival-Fits :
      ((i : ℕ) → Fits n (get_or es i fresh))
      → length (get_or es k fresh).tx < n
      → (i : ℕ) → Fits n (get_or (set es k (append_tx word (get_or es k fresh))) i fresh)
  arrival-Fits fits room i = elim (Bool-cases (k == i && ltb k (length es))) [
    | inr q ↦ rw get_or-set (rw q (fits i))
    | inl q ↦ rw get_or-set (
        rw q (record {
          tx = ground (arith, length-append (get_or es k fresh).tx (word ∷ []));
          rx = (fits k).rx;
        }))
  ]

  pub arrival_other :
      (i : ℕ)
      → k ≢ i
      → get_or (set es k (append_tx word (get_or es k fresh))) i fresh ≡ get_or es i fresh
  arrival_other i ne = rw get_or-set (rw (==_ne ne) refl)
