-- ===== src/Sim/Queue/Sink.antt =====
-- queue.go: down restores the heap order below a place, and tells whether it moved the event there.
use d_raft.Base.{
  ℕ, zero, suc, ◌+◌, ◌*◌, ◌≤◌, ◌<◌, ◌≡◌, ◌≢◌, ◌⊎◌, refl, sym, subst, inl, inr, Bool, Bool-cases,
  true, false, not, arith, ltb, leb, ◌==◌, if◌then◌else◌, length, ok, Returns, returns,
  Returns-bind, Returns-map, Returns-if,
}
use d_raft.Sim.Queue.{Heap, smallest_child, down_from}
use d_raft.Sim.Queue.Places.{Sized, key, swapped, swap-ok, less-ok, key-swapped, length-swapped}
use d_raft.Sim.Queue.Sift.{
  parent, child_cases, OrderedBut, IsHeap, Bridges, Moved, Moved-refl, Moved-trans, Moved-Sized,
  swapped-Moved,
}

module _ {Tag Action : Type 0} where
  -- `m` is the child of `i` that comes first.
  record FirstChild (h : Heap Tag Action) (i m : ℕ) : Type 0 where
    pub inside : m < length h.queue
    pub child : (m ≡ 2 * i + 1) ⊎ (m ≡ 2 * i + 2)
    pub first : (c : ℕ) → 0 < c → c < length h.queue → parent c ≡ i → key h m ≤ key h c

  smallest_child-FirstChild :
      (h : Heap Tag Action) (i : ℕ)
      → Sized h.events
      → 2 * i + 1 < length h.queue
      → Returns (FirstChild h i) (smallest_child h (2 * i + 1))
  unfolding smallest_child
  smallest_child-FirstChild h i sized inside =
      Returns-if (ltb (2 * i + 1 + 1) (length h.queue))
        (λ two.
          let right : 2 * i + 1 + 1 < length h.queue = ground arith in
          rw (less-ok h (2 * i + 1 + 1) (2 * i + 1) sized right inside)
            (chosen_child right (ltb (key h (2 * i + 1 + 1)) (key h (2 * i + 1))) refl))
        (λ one.
          returns (record { inside = inside; child = inl refl; first = λ c p q r. ground arith }))
    where
      least :
          (m c : ℕ)
          → key h m ≤ key h (2 * i + 1)
          → key h m ≤ key h (2 * i + 1 + 1)
          → 0 < c
          → parent c ≡ i
          → key h m ≤ key h c
      least m c a b p r = elim (child_cases i c p r) [
        | inl e ↦ subst (λ d. key h m ≤ key h d) (sym e) a
        | inr e ↦ subst (λ d. key h m ≤ key h d) (sym e) b
      ]

      chosen_child :
          2 * i + 1 + 1 < length h.queue
          → (b : Bool) → ltb (key h (2 * i + 1 + 1)) (key h (2 * i + 1)) ≡ b
          → Returns (FirstChild h i) (ok (if b then 2 * i + 1 + 1 else 2 * i + 1))
      chosen_child right true e = returns (record {
        inside = right;
        child = inr (omega arith);
        first = λ c p q r. least (2 * i + 1 + 1) c (ground arith) (omega arith) p r;
      })
      chosen_child right false e = returns (record {
        inside = inside;
        child = inl refl;
        first = λ c p q r. least (2 * i + 1) c (omega arith) (ground arith) p r;
      })

  -- Every event comes after its parent, but those below `i`, and perhaps the one at `i`.
  abbrev pub OrderedAround : Heap Tag Action → ℕ → Type 0
  OrderedAround h i =
      (c : ℕ) → 0 < c → c < length h.queue → c ≢ i → parent c ≢ i → key h (parent c) ≤ key h c

  sunk :
      (h : Heap Tag Action) (i m : ℕ)
      → OrderedAround h i
      → Bridges h i
      → FirstChild h i m
      → key h m < key h i
      → OrderedAround (swapped h i m) m
        × Bridges (swapped h i m) m
        × (key (swapped h i m) (parent m) ≤ key (swapped h i m) m)
  sunk h i m ordered bridged f low =
      let at = λ (c : ℕ). key-swapped h i m c (omega (arith, f.inside, f.child)) f.inside in
      let size = length-swapped h i m in
      (
        (λ c p q r t.
            ground (
              arith,
              at c,
              at (parent c),
              ordered c,
              bridged m,
              f.first c,
              f.inside,
              f.child,
              size,
            )),
        (λ c p q r t. ground (arith, at c, at (parent m), ordered c, f.inside, f.child, size)),
        ground (arith, at m, at (parent m), f.inside, f.child, low),
      )

  -- What the loop of `down` leaves from the place `i`: it stopped there, or moved on and restored the heap.
  abbrev pub Settled : Heap Tag Action → ℕ → Heap Tag Action × ℕ → Type 0
  Settled h i r = ((r.1 ≡ i) × (r.0 ≡ h) × OrderedBut h i) ⊎ ((i < r.1) × IsHeap r.0)

  OrderedAround-leaf :
      (h : Heap Tag Action) (i : ℕ)
      → OrderedAround h i
      → length h.queue ≤ 2 * i + 1
      → OrderedBut h i
  OrderedAround-leaf h i ordered leaf c p q r = ground (arith, ordered c)

  OrderedAround-settled :
      (h : Heap Tag Action) (i m : ℕ)
      → OrderedAround h i
      → FirstChild h i m
      → key h i ≤ key h m
      → OrderedBut h i
  OrderedAround-settled h i m ordered f settled c p q r = elim (Bool-cases (parent c == i)) [
    | inl same ↦
        let e : i ≡ parent c = ground arith in
        subst (λ j. key h j ≤ key h c) e (omega (arith, settled, f.first c p q (sym e)))
    | inr other ↦ ordered c p q r (ground arith)
  ]

  OrderedBut-IsHeap :
      (h : Heap Tag Action) (i : ℕ) → OrderedBut h i → key h (parent i) ≤ key h i → IsHeap h
  OrderedBut-IsHeap h i ordered above c p q = elim (Bool-cases (c == i)) [
    | inl same ↦ let e : i ≡ c = ground arith in subst (λ j. key h (parent j) ≤ key h j) e above
    | inr other ↦ ordered c p q (ground arith)
  ]

  sunk_further :
      (h : Heap Tag Action) (i m : ℕ) (r : Heap Tag Action × ℕ)
      → FirstChild h i m
      → key (swapped h i m) (parent m) ≤ key (swapped h i m) m
      → Settled (swapped h i m) m r
      → (i < r.1) × IsHeap r.0
  sunk_further h i m r f above (inl (stopped, same, ordered)) = (
    omega (arith, f.child),
    subst IsHeap (sym same) (OrderedBut-IsHeap (swapped h i m) m ordered above),
  )
  sunk_further h i m r f above (inr (further, ordered)) = (omega (arith, f.child), ordered)

  pub down_from-Settled :
      (fuel : ℕ) (h : Heap Tag Action) (i : ℕ)
      → length h.queue ≤ fuel + i
      → Sized h.events
      → i < length h.queue
      → OrderedAround h i
      → Bridges h i
      → Returns (λ r. Settled h i r × Moved h r.0) (down_from fuel h i)
  unfolding down_from
  down_from-Settled zero h i enough sized inside ordered bridged = absurd (omega arith)
  down_from-Settled (suc fuel) h i enough sized inside ordered bridged =
      Returns-if (leb (length h.queue) (2 * i + 1))
        (λ leaf.
          returns (inl (refl, refl, OrderedAround-leaf h i ordered (ground arith)), Moved-refl h))
        (λ parental. Returns-bind (smallest_child-FirstChild h i sized (ground arith)) λ m f.
          rw (less-ok h m i sized f.inside inside, swap-ok h i m inside f.inside)
            (Returns-if (not (ltb (key h m) (key h i)))
              (λ settled. returns (
                inl (refl, refl, OrderedAround-settled h i m ordered f (ground arith)),
                Moved-refl h,
              ))
              (λ low.
                let moved = swapped-Moved h i m inside f.inside in
                let (ordered', bridged', above) = sunk h i m ordered bridged f (ground arith) in
                Returns-map
                  (down_from-Settled fuel (swapped h i m) m
                    (omega (arith, length-swapped h i m, f.child))
                    (Moved-Sized h (swapped h i m) moved sized)
                    (omega (arith, length-swapped h i m, f.inside)) ordered' bridged')
                  λ r s. (
                    inr (sunk_further h i m r f above s.0),
                    Moved-trans h (swapped h i m) r.0 moved s.1,
                  ))))
