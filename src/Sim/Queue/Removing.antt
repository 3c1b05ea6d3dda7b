-- ===== src/Sim/Queue/Removing.antt =====
-- queue.go: remove and pop keep the heap order.
use mathlib.Core.List.{Perm}
use mathlib.Core.List.Perm
use d_raft.Base.{
  ℕ, zero, suc, ◌-◌, ◌≤◌, ◌<◌, ◌≡◌, ◌⊎◌, sym, subst, inl, inr, Bool, Bool-cases, true, false, not,
  ◌∷◌, arith, ltb, ◌==◌, if◌then◌else◌, length, ok, ◌>>=◌, Returns, returns, Returns-bind,
  Returns-map, Returns-if,
}
use d_raft.Sim.Queue.{Heap, up, down, remove, pop}
use d_raft.Sim.Queue.Indexes.{Indexed}
use d_raft.Sim.Queue.Places.{
  nth, get_elem?-nth, Sized, key, rank, Alike, Alike-trans, swapped, swap-ok, length-swapped,
}
use d_raft.Sim.Queue.Sift.{parent, OrderedBut, IsHeap, Bridges, Moved, Moved-refl, up_from-IsHeap}
use d_raft.Sim.Queue.Shortened.{
  shortened, shortened-Alike, length-shortened, taken_out, shortened_around, shortened-IsHeap,
  swapped_last, shortened-Indexed,
}
use d_raft.Sim.Queue.Sink.{OrderedAround, Settled, down_from-Settled}

module _ {Tag Action : Type 0} where
  -- What `down` leaves, by its answer.
  abbrev Sunk : Heap Tag Action → ℕ → Heap Tag Action × Bool → Type 0
  Sunk h i r = ((r.1 ≡ false) × (r.0 ≡ h) × OrderedBut h i) ⊎ ((r.1 ≡ true) × IsHeap r.0)

  down-Sunk :
      (h : Heap Tag Action) (i : ℕ)
      → Sized h.events
      → i < length h.queue
      → OrderedAround h i
      → Bridges h i
      → Returns (λ r. Sunk h i r × Moved h r.0) (down h i)
  unfolding down
  down-Sunk h i sized inside ordered bridged =
      Returns-bind
        (down_from-Settled (length h.queue) h i (omega arith) sized inside ordered bridged)
        λ r s. returns (answered r s.0, s.1)
    where
      answered : (r : Heap Tag Action × ℕ) → Settled h i r → Sunk h i (r.0, not (r.1 == i))
      answered r (inl (stopped, same, kept)) = inl (ground arith, same, kept)
      answered r (inr (further, kept)) = inr (ground arith, kept)

  -- `down`, and `up` where it moved nothing, restore the heap around a place.
  restored-IsHeap :
      (h : Heap Tag Action) (i : ℕ)
      → Sized h.events
      → i < length h.queue
      → OrderedAround h i
      → Bridges h i
      → Returns
          (λ h'. IsHeap h' × Moved h h')
          (down h i >>= λ r. if not r.1 then up r.0 i else ok r.0)
  unfolding down up
  restored-IsHeap h i sized inside ordered bridged =
      Returns-bind (down-Sunk h i sized inside ordered bridged) λ r s. finished r s.0 s.1
    where
      finished :
          (r : Heap Tag Action × Bool)
          → Sunk h i r
          → Moved h r.0
          → Returns (λ h'. IsHeap h' × Moved h h') (if not r.1 then up r.0 i else ok r.0)
      finished r (inl (stopped, same, kept)) moved =
          rw (stopped, same) (up_from-IsHeap i h i (omega arith) sized inside kept bridged)
      finished r (inr (further, kept)) moved = rw further (returns (kept, moved))

  shortened-restored :
      (h : Heap Tag Action) (i : ℕ)
      → Sized h.events
      → i < length h.queue
      → IsHeap h
      → Returns
          (λ h'. IsHeap h' × Moved (shortened h i) h')
          (if not (i == length h.queue - 1)
            then (down (shortened h i) i >>= λ r. if not r.1 then up r.0 i else ok r.0)
            else ok (shortened h i))
  shortened-restored h i sized inside ordered =
      Returns-if (not (i == length h.queue - 1))
        (λ within.
          let low : i < length h.queue - 1 = ground arith in
          let around = shortened_around h i low ordered in
          restored-IsHeap (shortened h i) i (λ p. omega (arith, sized p, (shortened-Alike h i p).0))
            (omega (arith, low, length-shortened h i)) around.0 around.1)
        (λ at_end.
          let e : length h.queue - 1 ≡ i = ground arith in
          returns (
            subst (λ j. IsHeap (shortened h j)) e (shortened-IsHeap h (omega arith) ordered),
            Moved-refl (shortened h i),
          ))

  -- Removing the event at a place of a heap returns its pointer, keeps the heap order and takes out that event alone.
  pub remove-IsHeap :
      (h : Heap Tag Action) (i : ℕ)
      → Sized h.events
      → i < length h.queue
      → IsHeap h
      → Returns
          (λ r.
            (r.1 ≡ nth h.queue i)
            × IsHeap r.0
            × Perm (r.1 ∷ r.0.queue) h.queue
            × Alike h.events r.0.events
            × (Indexed h → Indexed r.0))
          (remove h i)
  unfolding remove
  remove-IsHeap h i sized inside ordered =
      let last = length h.queue - 1 in
      let s = swapped h i last in
      rw
        (
          swap-ok h i last inside (omega arith),
          get_elem?-nth s.queue last (omega (arith, length-swapped h i last)),
        )
        (Returns-bind {Good = λ h'. IsHeap h' × Moved (shortened h i) h'}
          (shortened-restored h i sized inside ordered)
          λ h' r. returns (
            swapped_last h i inside,
            r.0,
            subst (λ p. Perm (p ∷ h'.queue) h.queue) (sym (swapped_last h i inside))
                (Perm.trans (Perm.cons (nth h.queue i) r.1.0) (taken_out h i inside)),
            Alike-trans h.events (shortened h i).events h'.events (shortened-Alike h i) r.1.1,
            λ indexed. r.1.3 (shortened-Indexed h i inside indexed),
          ))

  pub root_least :
      (h : Heap Tag Action)
      → IsHeap h
      → (fuel c : ℕ) → c ≤ fuel
      → c < length h.queue
      → key h 0 ≤ key h c
  root_least h ordered zero c enough inside =
      let e : 0 ≡ c = omega arith in subst (λ d. key h 0 ≤ key h d) e (omega arith)
  root_least h ordered (suc fuel) c enough inside = elim (Bool-cases (ltb 0 c)) [
    | inl below ↦
        let above = root_least h ordered fuel (parent c) (ground arith) (omega (arith, inside)) in
        omega (arith, above, ordered c (ground arith) inside)
    | inr root ↦ root_least h ordered fuel c (ground arith) inside
  ]

  -- Popping a heap that is not empty returns the pointer to the event that comes first, keeps the heap order and takes out that event alone.
  pub pop-IsHeap :
      (h : Heap Tag Action)
      → Sized h.events
      → 0 < length h.queue
      → IsHeap h
      → Returns
          (λ r.
            ((c : ℕ) → c < length h.queue → rank (h.events r.1) ≤ key h c)
            × IsHeap r.0
            × Perm (r.1 ∷ r.0.queue) h.queue
            × Alike h.events r.0.events
            × (Indexed h → Indexed r.0))
          (pop h)
  unfolding pop
  pop-IsHeap h sized inside ordered = Returns-map (remove-IsHeap h 0 sized inside ordered) λ r s. (
    (λ c q.
        subst (λ (p : ℕ). rank (h.events p) ≤ key h c) (sym s.0)
          (root_least h ordered c c (omega arith) q)),
    s.1,
    s.2,
    s.3,
    s.4,
  )
