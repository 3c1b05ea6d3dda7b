-- ===== src/Sim/Queue/Sift.antt =====
-- queue.go: up and down restore the heap order.
use mathlib.Core.List.{Perm}
use mathlib.Core.List.Perm
use d_raft.Base.{
  ℕ, zero, suc, ◌+◌, ◌-◌, ◌*◌, ◌/◌, ◌≤◌, ◌<◌, ◌≡◌, ◌≢◌, ◌⊎◌, refl, sym, subst, ◌∙◌, not, arith, ltb,
  length, Returns, returns, Returns-map, Returns-if,
}
use d_raft.Sim.Queue.{Heap, up_from}
use d_raft.Sim.Queue.Indexes.{Indexed, swapped-Indexed}
use d_raft.Sim.Queue.Places.{
  exchanged-Perm, Sized, key, Alike, Alike-trans, swapped, swap-ok, less-ok, swapped_queue,
  swapped-Alike, key-swapped, length-swapped,
}

abbrev pub parent : ℕ → ℕ
parent c = (c - 1) / 2

pub child_cases : (i c : ℕ) → 0 < c → parent c ≡ i → (c ≡ 2 * i + 1) ⊎ (c ≡ 2 * i + 1 + 1)
child_cases i c p e = ground arith

module _ {Tag Action : Type 0} where
  -- Every event but the one at `i` comes after its parent.
  abbrev pub OrderedBut : Heap Tag Action → ℕ → Type 0
  OrderedBut h i = (c : ℕ) → 0 < c → c < length h.queue → c ≢ i → key h (parent c) ≤ key h c

  abbrev pub IsHeap : Heap Tag Action → Type 0
  IsHeap h = (c : ℕ) → 0 < c → c < length h.queue → key h (parent c) ≤ key h c

  -- The children of `i` come after its parent.
  abbrev pub Bridges : Heap Tag Action → ℕ → Type 0
  Bridges h i =
      (c : ℕ) → 0 < i → 0 < c → c < length h.queue → parent c ≡ i → key h (parent i) ≤ key h c

  -- The same events, in other places.
  abbrev pub Moved : Heap Tag Action → Heap Tag Action → Type 0
  Moved h h' =
      Perm h'.queue h.queue
      × Alike h.events h'.events
      × (length h'.queue ≡ length h.queue)
      × (Indexed h → Indexed h')

  pub Moved-refl : (h : Heap Tag Action) → Moved h h
  Moved-refl h = (Perm.rfl, (λ p. (refl, refl, refl, refl)), refl, λ indexed. indexed)

  pub Moved-trans : (a b c : Heap Tag Action) → Moved a b → Moved b c → Moved a c
  Moved-trans a b c p q = (
    Perm.trans q.0 p.0,
    Alike-trans a.events b.events c.events p.1 q.1,
    q.2 ∙ p.2,
    λ indexed. q.3 (p.3 indexed),
  )

  pub Moved-Sized : (a b : Heap Tag Action) → Moved a b → Sized a.events → Sized b.events
  Moved-Sized a b m s p = omega (arith, s p, (m.1 p).0)

  pub swapped-Moved :
      (h : Heap Tag Action) (i j : ℕ)
      → i < length h.queue
      → j < length h.queue
      → Moved h (swapped h i j)
  swapped-Moved h i j hi hj = (
    subst (λ q. Perm q h.queue) (sym (swapped_queue h i j)) (exchanged-Perm h.queue i j hi hj),
    swapped-Alike h i j,
    length-swapped h i j,
    swapped-Indexed h i j hi hj,
  )

  -- An event that is too low moves up.
  risen :
      (h : Heap Tag Action) (i : ℕ)
      → i < length h.queue
      → 0 < i
      → OrderedBut h i
      → Bridges h i
      → key h i < key h (parent i)
      → OrderedBut (swapped h i (parent i)) (parent i) × Bridges (swapped h i (parent i)) (parent i)
  risen h i inside pos ordered bridged low =
      let at = λ (c : ℕ). key-swapped h i (parent i) c inside (omega arith) in
      let size = length-swapped h i (parent i) in
      (
        (λ c p q r. ground (arith, at c, at (parent c), ordered c, bridged c, size)),
        (λ c p q r t.
            ground (
              arith,
              at c,
              at (parent (parent i)),
              ordered c,
              ordered (parent i),
              bridged c,
              size,
            )),
      )

  pub up_from-IsHeap :
      (fuel : ℕ) (h : Heap Tag Action) (i : ℕ)
      → i ≤ fuel
      → Sized h.events
      → i < length h.queue
      → OrderedBut h i
      → Bridges h i
      → Returns (λ h'. IsHeap h' × Moved h h') (up_from fuel h i)
  unfolding up_from
  up_from-IsHeap zero h i enough sized inside ordered bridged =
      returns ((λ c p q. ordered c p q (omega arith)), Moved-refl h)
  up_from-IsHeap (suc fuel) h i enough sized inside ordered bridged =
      let above : parent i < length h.queue = omega arith in
      rw (less-ok h i (parent i) sized inside above, swap-ok h i (parent i) inside above)
        (Returns-if (ltb 0 i)
          (λ pos.
            Returns-if (not (ltb (key h i) (key h (parent i))))
              (λ settled. returns ((λ c p q. ground (arith, ordered c)), Moved-refl h))
              (λ low.
                let moved = swapped-Moved h i (parent i) inside above in
                let (ordered', bridged') =
                  risen h i inside (ground arith) ordered bridged (ground arith) in
                Returns-map
                  (up_from-IsHeap fuel (swapped h i (parent i)) (parent i) (ground arith)
                    (Moved-Sized h (swapped h i (parent i)) moved sized)
                    (omega (arith, length-swapped h i (parent i))) ordered' bridged')
                  λ h' r. (r.0, Moved-trans h (swapped h i (parent i)) h' moved r.1)))
          (λ root. returns ((λ c p q. ordered c p q (ground arith)), Moved-refl h)))
