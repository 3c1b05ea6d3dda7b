-- ===== src/Minimize/Guided.antt =====
-- minimize/minimize.go: the loop that removes entries of the guide ends and keeps the violation.
use d_raft.Base.{
  ℕ, zero, suc, ◌+◌, ◌-◌, ◌*◌, ◌≤◌, ◌≡◌, inl, inr, subst, Bool, Bool-cases, true, ◌||◌, Option,
  none, some, List, arith, leb, ◌==◌, if◌then◌else◌, length, take, drop,
}
use d_raft.Decision.Tape.{Tape, TapeEntry}
use d_raft.Minimize.Reduce.{
  ArtifactRun, Phase, phase_failed, reduced, reduce_guide, Scanned, scan_failed, scanned,
  without_chunk, chunk_size, with_guide, max_of, min_of,
}
use d_raft.Minimize.Preserved.{
  Found, found_error, found_some, found_none, scan_chunks-spends, bounded, bounded-append,
  bounded-take, bounded-drop, Preserved, Counts, Ended, ended_error, ended, Ended-weaken,
}

bounded-without_chunk :
    (start chunk : ℕ) (xs : List TapeEntry)
    → bounded xs ≡ true
    → bounded (without_chunk start chunk xs) ≡ true
unfolding without_chunk
bounded-without_chunk start chunk xs h = ground (
  arith,
  bounded-append (take start xs) (drop (start + chunk) xs),
  bounded-take start xs h,
  bounded-drop (start + chunk) xs h,
)

with_guide_taken :
    {C : Type 0} (guide : Tape) (o : Option (C × Bool)) (candidate : C) (guide' : Tape)
    → with_guide guide o ≡ some ((candidate, guide'), true)
    → (o ≡ some (candidate, true)) × (guide ≡ guide')
unfolding with_guide
with_guide_taken guide none candidate guide' e = cc (e)
with_guide_taken guide (some (c, matches)) candidate guide' e = (cc (e), cc (e))

module _ {S A R : Type 0} (calls : S → ℕ)
    (evaluate : S → List A → Tape → S × Option (ArtifactRun A R × Bool))
    (input : ArtifactRun A R) where
  -- The test of the entries that are left.
  abbrev entries_test :
      ArtifactRun A R → Tape → S → List TapeEntry → S × Option ((ArtifactRun A R × Tape) × Bool)
  entries_test current guide s entries =
      let tried = evaluate s current.actions (record guide { entries = entries }) in
      (tried.0, with_guide (record guide { entries = entries }) tried.1)

  guide_round :
      (fuel budget l granularity : ℕ) (current : ArtifactRun A R) (guide : Tape)
      (found : S × Scanned (ArtifactRun A R × Tape))
      → Preserved calls evaluate input current
      → bounded guide.entries ≡ true
      → ((left g : ℕ) (run : ArtifactRun A R) (guide' : Tape) (s : S)
          → left ≤ l
          → calls s + left ≡ budget
          → Preserved calls evaluate input run
          → bounded guide'.entries ≡ true
          → Ended calls evaluate input budget left (reduce_guide evaluate fuel left g run guide' s))
      → Found calls (entries_test current guide) guide.entries budget l found
      → Ended calls evaluate input budget l (elim found.1 as (λ x. S × Phase A R) [
        | scan_failed ↦ (found.0, phase_failed)
        | scanned left' (some (candidate, candidate_guide)) ↦
            reduce_guide evaluate fuel left'
              (max_of 2 (granularity - 1))
              candidate
              candidate_guide
              found.0
        | scanned left' none ↦
            if leb (length guide.entries) granularity
            then (found.0, reduced current guide left')
            else reduce_guide evaluate fuel left'
                (min_of (length guide.entries) (granularity * 2))
                current
                guide
                found.0
      ])
  guide_round fuel budget l granularity current guide _ kept fit rest (found_error s c) =
      ended_error s c
  guide_round fuel budget l granularity current guide _ kept fit rest
        (found_some s at start chunk (candidate, guide') left e k c) =
      let shorter = record guide { entries = without_chunk start chunk guide.entries } in
      let (taken, same) =
        with_guide_taken shorter (evaluate at current.actions shorter).1 candidate guide' e in
      Ended-weaken calls evaluate input budget left l _ k (
        rest left (max_of 2 (granularity - 1)) candidate guide' s k c
          (inr (at, current.actions, shorter, taken))
          (subst (λ (g : Tape). bounded g.entries ≡ true) same
            (bounded-without_chunk start chunk guide.entries fit)))
  guide_round fuel budget l granularity current guide _ kept fit rest (found_none s left k c) =
      elim (Bool-cases (leb (length guide.entries) granularity)) [
        | inl last ↦ rw last (ended s current guide left kept fit k c)
        | inr more ↦ rw more (
            Ended-weaken calls evaluate input budget left l _ k (
              rest left (min_of (length guide.entries) (granularity * 2)) current guide s k c kept
                fit))
      ]

  pub reduce_guide-Ended :
      (fuel left granularity budget : ℕ) (current : ArtifactRun A R) (guide : Tape) (s : S)
      → left ≤ fuel
      → calls s + left ≡ budget
      → Counts calls evaluate input
      → Preserved calls evaluate input current
      → bounded guide.entries ≡ true
      → Ended calls evaluate input budget left
          (reduce_guide evaluate fuel left granularity current guide s)
  unfolding reduce_guide
  reduce_guide-Ended zero left g budget current guide s enough c counts kept fit =
      let stop : (length guide.entries == 0 || left == 0) ≡ true = ground arith in
      rw stop (ended s current guide left kept fit (omega arith) c)
  reduce_guide-Ended (suc fuel) zero g budget current guide s enough c counts kept fit =
      let stop : (length guide.entries == 0 || zero == 0) ≡ true = ground arith in
      rw stop (ended s current guide zero kept fit (omega arith) c)
  reduce_guide-Ended (suc fuel) (suc l) g budget current guide s enough c counts kept fit =
      elim (Bool-cases (length guide.entries == 0 || suc l == 0)) [
        | inl stop ↦ rw stop (ended s current guide (suc l) kept fit (omega arith) c)
        | inr going ↦ rw going (
            Ended-weaken calls evaluate input budget l (suc l) _ (omega arith) (
              guide_round fuel budget l g current guide _ kept fit
                (λ left g' run guide' s' k c' p b.
                  reduce_guide-Ended fuel left g' budget run guide' s' (omega arith) c' counts p b)
                (spent (
                  scan_chunks-spends calls (entries_test current guide) l
                    (chunk_size (length guide.entries) g) guide.entries s
                    (λ s' entries. counts s' current.actions (record guide { entries = entries }))
                    (ground arith)))))
      ]
    where
      spent :
          {found : S × Scanned (ArtifactRun A R × Tape)}
          → Found calls (entries_test current guide) guide.entries (calls s + suc l) l found
          → Found calls (entries_test current guide) guide.entries budget l found
      spent {found} f =
          subst (λ (b : ℕ). Found calls (entries_test current guide) guide.entries b l found) c f
