-- ===== src/Machine/Loader.antt =====
-- BEGIN, program words and COMMIT load an image; a command that is rejected changes nothing else.
use ttihp_protocol_emulator.Prelude.{
  append-nil, append_assoc, ℕ, ◌+◌, ◌*◌, ◌/◌, ◌%◌, ◌^◌, ◌<◌, ◌≤◌, true, false, ◌≡◌, ◌≢◌, refl, ◌∙◌,
  sym, ap, subst, some, List, [], ◌∷◌, ◌++◌, map, length, length-append, length-map, length-set,
  get_or, get_or-set_self, get_or-set_ne, set, arith,
}
use ttihp_protocol_emulator.Config.{Config}
use ttihp_protocol_emulator.Engine.{Engine, fresh}
use ttihp_protocol_emulator.Machine.{Machine, engine_at}
use ttihp_protocol_emulator.Machine.Atomic.{command-accepts}
use ttihp_protocol_emulator.Machine.Command.{
  HostOp, host_op, rejects, effect, command, program_word,
}

-- The program words of an image, one after the other.
unfoldable pub load_words : Config → List ℕ → Machine → Machine
load_words cfg [] m = m
load_words cfg (word ∷ words) m = load_words cfg words (program_word cfg m word).0

-- BEGIN, the words, COMMIT with their number.
unfoldable pub load_image : Config → List ℕ → Machine → Machine
load_image cfg words m =
    (command cfg (load_words cfg words (command cfg m (2 ^ 24)).0) (2 * 2 ^ 24 + length words)).0

abbrev pub as_words : List ℕ → List ℕ
as_words words = map (λ word. word % 2 ^ 32) words

-- an engine after BEGIN
abbrev begun : Engine → Engine
begun e = record e {
  running = false;
  committed = false;
  direction = 0;
  program = [];
  writing = true;
}

module _ (cfg : Config) (m₀ : Machine) (k : ℕ) where
  -- engine `k` is selected and takes words, `done` so far; the others are those of `m₀`
  record IsLoading (done : List ℕ) (m : Machine) : Type 0 where
    selected : m.selected ≡ k
    within : k < length m.engines
    standing : (engine_at m k).running ≡ false
    writing : (engine_at m k).writing ≡ true
    program : (engine_at m k).program ≡ done
    others : (j : ℕ) → k ≢ j → engine_at m j ≡ engine_at m₀ j
    fault : m.host_fault ≡ m₀.host_fault

  -- a new engine `k` that takes words
  installed :
      (done : List ℕ) (m m' : Machine) (e : Engine)
      → k < length m.engines
      → ((j : ℕ) → k ≢ j → engine_at m j ≡ engine_at m₀ j)
      → m'.engines ≡ set m.engines k e
      → m'.selected ≡ k
      → m'.host_fault ≡ m₀.host_fault
      → e.running ≡ false
      → e.writing ≡ true
      → e.program ≡ done
      → IsLoading done m'
  installed done m m' e within others at selected fault standing writing program =
      let here : engine_at m' k ≡ e =
        ap (λ es. get_or es k fresh) at ∙ get_or-set_self m.engines k e fresh within in
      record {
        selected = selected;
        within = rw at (rw length-set within);
        standing = rw here standing;
        writing = rw here writing;
        program = rw here program;
        others = λ j ne.
            ap (λ es. get_or es j fresh) at ∙ get_or-set_ne m.engines k j e fresh ne ∙ others j ne;
        fault = fault;
      }

  begins-IsLoading :
      m₀.selected ≡ k → k < length m₀.engines → IsLoading [] (command cfg m₀ (2 ^ 24)).0
  unfolding command host_op rejects effect
  begins-IsLoading here within =
      installed [] m₀ (command cfg m₀ (2 ^ 24)).0 _ within (λ j ne. refl)
        (ap (λ n. set m₀.engines n (begun (engine_at m₀ n))) here) here refl refl refl refl

  word-IsLoading :
      (done : List ℕ) (m : Machine) (word : ℕ)
      → IsLoading done m
      → length done < cfg.program_words
      → IsLoading (done ++ (word % 2 ^ 32 ∷ [])) (program_word cfg m word).0
  unfolding program_word
  word-IsLoading done m word h room =
      let e = engine_at m k in
      let e' = record e { program = e.program ++ (word % 2 ^ 32 ∷ []) } in
      let accepted : (program_word cfg m word).0 ≡ record m { engines = set m.engines k e' } =
        ground (arith, h.selected, h.standing, h.writing, h.program) in
      installed _ m _ e' h.within h.others (ap (λ (x : Machine). x.engines) accepted)
        (ap (λ (x : Machine). x.selected) accepted ∙ h.selected)
        (ap (λ (x : Machine). x.host_fault) accepted ∙ h.fault) h.standing h.writing
        (ap (λ p. p ++ (word % 2 ^ 32 ∷ [])) h.program)

  words-IsLoading :
      (words done : List ℕ) (m : Machine)
      → IsLoading done m
      → length done + length words ≤ cfg.program_words
      → IsLoading (done ++ as_words words) (load_words cfg words m)
  unfolding load_words
  words-IsLoading [] done m h room = subst (λ d. IsLoading d m) (sym (append-nil done)) h
  words-IsLoading (word ∷ words) done m h room =
      subst (λ d. IsLoading d (load_words cfg words (program_word cfg m word).0))
        (append_assoc done (word % 2 ^ 32 ∷ []) (as_words words))
        (words-IsLoading words (done ++ (word % 2 ^ 32 ∷ [])) (program_word cfg m word).0
          (word-IsLoading done m word h (omega arith))
          (omega (arith, length-append done (word % 2 ^ 32 ∷ []))))

-- engine `k` of `m` holds the committed `image`; the other engines and the host fault are as in
-- `m₀`
pub record IsLoaded (image : List ℕ) (k : ℕ) (m₀ m : Machine) : Type 0 where
  pub committed : (engine_at m k).committed ≡ true
  pub sealed : (engine_at m k).writing ≡ false
  pub standing : (engine_at m k).running ≡ false
  pub program : (engine_at m k).program ≡ image
  pub others : (j : ℕ) → k ≢ j → engine_at m j ≡ engine_at m₀ j
  pub fault : m.host_fault ≡ m₀.host_fault

module _ (cfg : Config) (m₀ : Machine) (k : ℕ) where
  commit_word :
      (n : ℕ)
      → n < 2 ^ 16
      → (host_op ((2 * 2 ^ 24 + n) / 2 ^ 24) ≡ some HostOp.commit) × ((2 * 2 ^ 24 + n) % 2 ^ 24 ≡ n)
  unfolding host_op
  commit_word n small =
      let two : (2 * 2 ^ 24 + n) / 2 ^ 24 ≡ 2 = omega arith in (ap host_op two, omega arith)

  commit_accepted :
      (n : ℕ) (m : Machine)
      → (engine_at m m.selected).running ≡ false
      → (engine_at m m.selected).writing ≡ true
      → length (engine_at m m.selected).program ≡ n
      → 0 < n
      → n ≤ cfg.program_words
      → n < 2 ^ 16
      → rejects cfg HostOp.commit m n ≡ false
  unfolding rejects
  commit_accepted n m standing writing number filled room small =
      ground (arith, standing, writing, number)

  commit_loads :
      (done : List ℕ) (m : Machine)
      → IsLoading cfg m₀ k done m
      → 0 < length done
      → length done ≤ cfg.program_words
      → length done < 2 ^ 16
      → IsLoaded done k m₀ (command cfg m (2 * 2 ^ 24 + length done)).0
  unfolding effect
  commit_loads done m h filled room small =
      let n = length done in
      let (op, payload) = commit_word n small in
      let accepted =
        commit_accepted n m (rw h.selected h.standing) (rw h.selected h.writing)
          (rw h.selected (ap length h.program)) filled room small in
      let e' = record (engine_at m k) { committed = true; writing = false } in
      let now : command cfg m (2 * 2 ^ 24 + n) ≡ (effect HostOp.commit m n, true) =
        command-accepts cfg m (2 * 2 ^ 24 + n) HostOp.commit op (rw payload accepted) in
      let at : (command cfg m (2 * 2 ^ 24 + n)).0.engines ≡ set m.engines k e' =
        ap (λ r. r.0.engines) now
        ∙ ap (λ s. set m.engines s (record (engine_at m s) { committed = true; writing = false }))
            h.selected in
      let here : engine_at (command cfg m (2 * 2 ^ 24 + n)).0 k ≡ e' =
        ap (λ es. get_or es k fresh) at ∙ get_or-set_self m.engines k e' fresh h.within in
      record {
        committed = rw here refl;
        sealed = rw here refl;
        standing = rw here h.standing;
        program = rw here h.program;
        others = λ j ne.
            ap (λ es. get_or es j fresh) at
            ∙ get_or-set_ne m.engines k j e' fresh ne
            ∙ h.others j ne;
        fault = ap (λ r. r.0.host_fault) now ∙ h.fault;
      }

-- BEGIN, the words of an image that is not empty and fits the storage, and COMMIT with their number
-- leave the selected engine standing with exactly that image committed, as 32-bit words; no other engine
-- changes, and no host fault is raised.
pub load_image-IsLoaded :
    (cfg : Config) (m : Machine) (words : List ℕ)
    → m.selected < length m.engines
    → 0 < length words
    → length words ≤ cfg.program_words
    → length words < 2 ^ 16
    → IsLoaded (as_words words) m.selected m (load_image cfg words m)
unfolding load_image
load_image-IsLoaded cfg m words within filled room small =
    let k = m.selected in
    let same : length (as_words words) ≡ length words = length-map _ words in
    let loading =
      words-IsLoading cfg m k words [] (command cfg m (2 ^ 24)).0
        (begins-IsLoading cfg m k refl within) (omega (arith, room)) in
    rw same at (
      commit_loads cfg m k (as_words words) _ loading (rw same filled) (rw same room)
        (rw same small))
