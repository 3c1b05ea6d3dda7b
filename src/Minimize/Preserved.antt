-- ===== src/Minimize/Preserved.antt =====
-- minimize/minimize.go: the phases that remove chunks end, keep the violation and run no more than they may.
use d_raft.Base.{
  ℕ, zero, suc, ◌+◌, ◌-◌, ◌*◌, ◌≤◌, ◌<◌, ◌≡◌, ◌⊎◌, inl, inr, refl, subst, Bool, Bool-cases, true,
  false, not, ◌&&◌, ◌||◌, Option, none, some, is_some, is_empty, List, [], ◌∷◌, ◌++◌, arith, ltb,
  leb, ◌==◌, if◌then◌else◌, length, take, drop,
}
use d_raft.Decision.Tape.{Tape, TapeEntry}
use d_raft.Minimize.Reduce.{
  ArtifactRun, Phase, phase_failed, reduced, reduce_actions, Scanned, scan_failed, scanned,
  scan_chunks, without_chunk, chunk_size, max_of, min_of,
}

-- The loop over the chunks found a candidate that its test takes, or none, or failed. At most `most`
-- runs are left, and with the calls that the evaluator has had they make up the budget.
pub data Found {S X C : Type 0} (calls : S → ℕ) (try : S → List X → S × Option (C × Bool))
    (whole : List X) (budget most : ℕ) : S × Scanned C → Type 0 where
  found_error : (s : S) → calls s ≤ budget → Found calls try whole budget most (s, scan_failed)
  found_some :
      (s at : S) (start chunk : ℕ) (candidate : C) (left : ℕ)
      → (try at (without_chunk start chunk whole)).1 ≡ some (candidate, true)
      → left ≤ most
      → calls s + left ≡ budget
      → Found calls try whole budget most (s, scanned left (some candidate))
  found_none :
      (s : S) (left : ℕ)
      → left ≤ most
      → calls s + left ≡ budget
      → Found calls try whole budget most (s, scanned left none)

module _ {S X C : Type 0} (calls : S → ℕ) (try : S → List X → S × Option (C × Bool)) where
  Found-weaken :
      (whole : List X) (budget a b : ℕ) (r : S × Scanned C)
      → a ≤ b
      → Found calls try whole budget a r
      → Found calls try whole budget b r
  Found-weaken whole budget a b _ h (found_error s c) = found_error s c
  Found-weaken whole budget a b _ h (found_some s at start chunk candidate left e k c) =
      found_some s at start chunk candidate left e (omega arith) c
  Found-weaken whole budget a b _ h (found_none s left k c) = found_none s left (omega arith) c

  -- One candidate: what the rest finds, it finds.
  tried-Found :
      (whole : List X) (budget left start chunk : ℕ) (s at : S) (rest : S × Scanned C)
      (o : Option (C × Bool))
      → (try at (without_chunk start chunk whole)).1 ≡ o
      → calls s + left ≡ budget
      → Found calls try whole budget left rest
      → Found calls try whole budget left (elim o as (λ x. S × Scanned C) [
        | none ↦ (s, scan_failed)
        | some (candidate, true) ↦ (s, scanned left (some candidate))
        | some (candidate, false) ↦ rest
      ])
  tried-Found whole budget left start chunk s at rest none e c f = found_error s (omega arith)
  tried-Found whole budget left start chunk s at rest (some (candidate, true)) e c f =
      found_some s at start chunk candidate left e (omega arith) c
  tried-Found whole budget left start chunk s at rest (some (candidate, false)) e c f = f

  -- Each test is one call of the evaluator.
  abbrev pub CallsOnce : Type 0
  CallsOnce = (s : S) (xs : List X) → calls (try s xs).0 ≡ calls s + 1

  next-Found :
      (left start chunk : ℕ) (xs : List X) (s : S) {rest : S × Scanned C}
      → CallsOnce
      → Found calls try xs (calls (try s (without_chunk start chunk xs)).0 + left) left rest
      → Found calls try xs
          (calls s + suc left)
          left
          (elim (try s (without_chunk start chunk xs)).1 as (λ x. S × Scanned C) [
            | none ↦ ((try s (without_chunk start chunk xs)).0, scan_failed)
            | some (candidate, true) ↦
                ((try s (without_chunk start chunk xs)).0, scanned left (some candidate))
            | some (candidate, false) ↦ rest
          ])
  next-Found left start chunk xs s {rest} once f =
      let tried = try s (without_chunk start chunk xs) in
      let cost = once s (without_chunk start chunk xs) in
      let budget : calls tried.0 + left ≡ calls s + suc left = omega (arith, cost) in
      tried-Found xs (calls s + suc left) left start chunk tried.0 s rest tried.1 refl budget
        (subst (λ (b : ℕ). Found calls try xs b left rest) budget f)

  scan_chunks-Found :
      (left chunk : ℕ) (xs : List X) (start : ℕ) (s : S)
      → CallsOnce
      → Found calls try xs (calls s + left) left (scan_chunks try left chunk xs start s)
  unfolding scan_chunks
  scan_chunks-Found zero chunk xs start s once = found_none s 0 (omega arith) refl
  scan_chunks-Found (suc left) chunk xs start s once = elim (Bool-cases (ltb start (length xs))) [
    | inl inside ↦ rw inside (
        Found-weaken xs (calls s + suc left) left (suc left) _ (omega arith) (
          next-Found left start chunk xs s once (
            scan_chunks-Found left chunk xs (start + chunk) (try s (without_chunk start chunk xs)).0
              once)))
    | inr past ↦ rw past (found_none s (suc left) (omega arith) refl)
  ]

  -- The first chunk takes a run.
  pub scan_chunks-spends :
      (left chunk : ℕ) (xs : List X)
      → (s : S) → CallsOnce
      → 0 < length xs
      → Found calls try xs (calls s + suc left) left (scan_chunks try (suc left) chunk xs 0 s)
  unfolding scan_chunks
  scan_chunks-spends left chunk xs s once some_left =
      let inside : ltb 0 (length xs) ≡ true = ground arith in
      rw inside (
        next-Found left 0 chunk xs s once
          (scan_chunks-Found left chunk xs (0 + chunk) (try s (without_chunk 0 chunk xs)).0 once))

-- Every choice of a guide has a minimum or options, as a valid choice has.
unfoldable pub bounded : List TapeEntry → Bool
bounded [] = true
bounded (entry ∷ entries) =
    (not (is_empty entry.choice.options) || is_some entry.choice.min) && bounded entries

pub bounded-append : (xs ys : List TapeEntry) → bounded (xs ++ ys) ≡ (bounded xs && bounded ys)
unfolding bounded
bounded-append [] ys = refl
bounded-append (x ∷ xs) ys = ground (arith, bounded-append xs ys)

pub bounded-take : (n : ℕ) (xs : List TapeEntry) → bounded xs ≡ true → bounded (take n xs) ≡ true
unfolding bounded
bounded-take zero xs h = refl
bounded-take (suc n) [] h = refl
bounded-take (suc n) (x ∷ xs) h = ground (arith, bounded-take n xs)

pub bounded-drop : (n : ℕ) (xs : List TapeEntry) → bounded xs ≡ true → bounded (drop n xs) ≡ true
unfolding bounded
bounded-drop zero xs h = h
bounded-drop (suc n) [] h = refl
bounded-drop (suc n) (x ∷ xs) h = bounded-drop n xs (ground arith)

module _ {S A R : Type 0} (calls : S → ℕ)
    (evaluate : S → List A → Tape → S × Option (ArtifactRun A R × Bool))
    (input : ArtifactRun A R) where
  -- The run is the one given, or the evaluator, in one of its states, answers it as one that has the
  -- violation.
  abbrev pub Preserved : ArtifactRun A R → Type 0
  Preserved run =
      (run ≡ input)
      ⊎ ((s : S) × (actions : List A) × (guide : Tape) × ((evaluate s actions guide).1
            ≡ some (run, true)))

  -- What a phase leaves, with at most so many runs left, which make up the budget with the calls of
  -- the evaluator; it never is unfinished.
  pub data Ended (budget most : ℕ) : S × Phase A R → Type 0 where
    ended_error : (s : S) → calls s ≤ budget → Ended budget most (s, phase_failed)
    ended :
        (s : S) (current : ArtifactRun A R) (guide : Tape) (left : ℕ)
        → Preserved current
        → bounded guide.entries ≡ true
        → left ≤ most
        → calls s + left ≡ budget
        → Ended budget most (s, reduced current guide left)

  pub Ended-weaken :
      (budget a b : ℕ) (p : S × Phase A R) → a ≤ b → Ended budget a p → Ended budget b p
  Ended-weaken budget a b _ h (ended_error s c) = ended_error s c
  Ended-weaken budget a b _ h (ended s current guide left k g m c) =
      ended s current guide left k g (omega arith) c

  -- Each evaluation is one call.
  abbrev pub Counts : Type 0
  Counts =
      (s : S) (actions : List A) (guide : Tape) → calls (evaluate s actions guide).0 ≡ calls s + 1

  -- The evaluator's runs have valid choices in their decisions.
  abbrev pub Evaluates : Type 0
  Evaluates =
      (s : S) (actions : List A) (guide : Tape) (run : ArtifactRun A R) (matches : Bool)
      → (evaluate s actions guide).1 ≡ some (run, matches)
      → bounded run.decisions.entries ≡ true

  actions_round :
      (fuel budget l granularity : ℕ) (current : ArtifactRun A R) (guide : Tape)
      (found : S × Scanned (ArtifactRun A R))
      → Evaluates
      → Preserved current
      → bounded guide.entries ≡ true
      → ((left g : ℕ) (run : ArtifactRun A R) (guide' : Tape) (s : S)
          → left ≤ l
          → calls s + left ≡ budget
          → Preserved run
          → bounded guide'.entries ≡ true
          → Ended budget left (reduce_actions evaluate fuel left g run guide' s))
      → Found calls (λ s actions. evaluate s actions guide) current.actions budget l found
      → Ended budget l (elim found.1 as (λ x. S × Phase A R) [
        | scan_failed ↦ (found.0, phase_failed)
        | scanned left' (some candidate) ↦
            reduce_actions evaluate fuel left'
              (max_of 2 (granularity - 1))
              candidate
              candidate.decisions
              found.0
        | scanned left' none ↦
            if leb (length current.actions) granularity
            then (found.0, reduced current guide left')
            else reduce_actions evaluate fuel left'
                (min_of (length current.actions) (granularity * 2))
                current
                guide
                found.0
      ])
  actions_round fuel budget l granularity current guide _ valid kept fit rest (found_error s c) =
      ended_error s c
  actions_round fuel budget l granularity current guide _ valid kept fit rest
        (found_some s at start chunk candidate left e k c) =
      Ended-weaken budget left l _ k (
        rest left (max_of 2 (granularity - 1)) candidate candidate.decisions s k c
          (inr (at, _, guide, e)) (valid at _ guide candidate true e))
  actions_round fuel budget l granularity current guide _ valid kept fit rest
        (found_none s left k c) =
      elim (Bool-cases (leb (length current.actions) granularity)) [
        | inl last ↦ rw last (ended s current guide left kept fit k c)
        | inr more ↦ rw more (
            Ended-weaken budget left l _ k (
              rest left (min_of (length current.actions) (granularity * 2)) current guide s k c kept
                fit))
      ]

  -- The loop that removes actions ends with as much fuel as runs are left.
  pub reduce_actions-Ended :
      (fuel left granularity budget : ℕ) (current : ArtifactRun A R) (guide : Tape) (s : S)
      → left ≤ fuel
      → calls s + left ≡ budget
      → Counts
      → Evaluates
      → Preserved current
      → bounded guide.entries ≡ true
      → Ended budget left (reduce_actions evaluate fuel left granularity current guide s)
  unfolding reduce_actions
  reduce_actions-Ended zero left g budget current guide s enough c counts valid kept fit =
      let stop : (length current.actions == 0 || left == 0) ≡ true = ground arith in
      rw stop (ended s current guide left kept fit (omega arith) c)
  reduce_actions-Ended (suc fuel) zero g budget current guide s enough c counts valid kept fit =
      let stop : (length current.actions == 0 || zero == 0) ≡ true = ground arith in
      rw stop (ended s current guide zero kept fit (omega arith) c)
  reduce_actions-Ended (suc fuel) (suc l) g budget current guide s enough c counts valid kept fit =
      elim (Bool-cases (length current.actions == 0 || suc l == 0)) [
        | inl stop ↦ rw stop (ended s current guide (suc l) kept fit (omega arith) c)
        | inr going ↦ rw going (
            Ended-weaken budget l (suc l) _ (omega arith) (
              actions_round fuel budget l g current guide _ valid kept fit
                (λ left g' run guide' s' k c' p b.
                  reduce_actions-Ended fuel left g' budget run guide' s' (omega arith) c' counts
                    valid p b)
                (spent (
                  scan_chunks-spends calls (λ s' actions. evaluate s' actions guide) l
                    (chunk_size (length current.actions) g) current.actions s
                    (λ s' actions. counts s' actions guide) (ground arith)))))
      ]
    where
      spent :
          {found : S × Scanned (ArtifactRun A R)}
          → Found calls
              (λ s' actions. evaluate s' actions guide)
              current.actions
              (calls s + suc l)
              l
              found
          → Found calls (λ s' actions. evaluate s' actions guide) current.actions budget l found
      spent {found} f =
          subst
            (λ (b : ℕ).
              Found calls (λ s' actions. evaluate s' actions guide) current.actions b l found)
            c f
