-- ===== src/Sim/Queue/Shortened.antt =====
-- queue.go: the heap that remove restores, which the last event left for the place of the removed one.
use mathlib.Core.List.{Perm}
use mathlib.Core.List.Perm
use d_raft.Base.{
  ℕ, ◌-◌, ◌<◌, ◌≡◌, refl, sym, ap, subst, ◌∙◌, none, List, ◌∷◌, arith, ◌==◌, if◌then◌else◌, length,
  take, length-take,
}
use d_raft.Sim.Queue.{Heap, set_index, drop_last}
use d_raft.Sim.Queue.Ends.{nth-take, take-Perm}
use d_raft.Sim.Queue.Indexes.{Indexed, Indexed-apart, index-set_index, swapped-Indexed}
use d_raft.Sim.Queue.Places.{
  nth, key, rank, Alike, Alike-trans, set_index-Alike, exchanged, nth-exchanged, length-exchanged,
  swapped, swapped_queue, swapped-Alike, exchanged-Perm, choose_apply, length-swapped,
}
use d_raft.Sim.Queue.Sift.{parent, IsHeap, Bridges}
use d_raft.Sim.Queue.Sink.{OrderedAround}

module _ {Tag Action : Type 0} where
  -- The heap that `remove` restores: the place `i` exchanged with the last one, which is dropped.
  abbrev pub shortened : Heap Tag Action → ℕ → Heap Tag Action
  shortened h i =
      drop_last (swapped h i (length h.queue - 1)) (length h.queue - 1)
        (nth (swapped h i (length h.queue - 1)).queue (length h.queue - 1))

  pub shortened_queue :
      (h : Heap Tag Action) (i : ℕ)
      → (shortened h i).queue ≡ take (length h.queue - 1) (exchanged h.queue i (length h.queue - 1))
  unfolding drop_last set_index
  shortened_queue h i = refl

  pub shortened-Alike : (h : Heap Tag Action) (i : ℕ) → Alike h.events (shortened h i).events
  unfolding drop_last
  shortened-Alike h i =
      let s = swapped h i (length h.queue - 1) in
      Alike-trans h.events s.events (shortened h i).events (swapped-Alike h i (length h.queue - 1))
        (set_index-Alike (record s { queue = take (length h.queue - 1) s.queue })
          (nth s.queue (length h.queue - 1)) none)

  pub length-shortened :
      (h : Heap Tag Action) (i : ℕ) → length (shortened h i).queue ≡ length h.queue - 1
  length-shortened h i = omega (
    arith,
    ap length (shortened_queue h i),
    length-take (length h.queue - 1) (exchanged h.queue i (length h.queue - 1)),
    length-exchanged h.queue i (length h.queue - 1),
  )

  key-shortened :
      (h : Heap Tag Action) (i c : ℕ)
      → i < length h.queue
      → c < length h.queue - 1
      → key (shortened h i) c ≡ (if i == c then key h (length h.queue - 1) else key h c)
  key-shortened h i c inside low =
      let last = length h.queue - 1 in
      let place : nth (shortened h i).queue c ≡ nth (exchanged h.queue i last) c =
        ap (λ (xs : List ℕ). nth xs c) (shortened_queue h i)
        ∙ nth-take (exchanged h.queue i last) last c low in
      let x = nth (shortened h i).queue c in
      let kept : rank ((shortened h i).events x) ≡ rank (h.events x) =
        omega (arith, (shortened-Alike h i x).0, (shortened-Alike h i x).1) in
      let found : nth (exchanged h.queue i last) c
          ≡ (if i == c then nth h.queue last else nth h.queue c) =
        ground (arith, nth-exchanged h.queue i last c inside) in
      kept
      ∙ ap (λ (y : ℕ). rank (h.events y)) (place ∙ found)
      ∙ choose_apply (λ y. rank (h.events y)) (i == c) (nth h.queue last) (nth h.queue c)

  pub taken_out :
      (h : Heap Tag Action) (i : ℕ)
      → i < length h.queue
      → Perm (nth h.queue i ∷ (shortened h i).queue) h.queue
  taken_out h i inside =
      let last = length h.queue - 1 in
      let xs = exchanged h.queue i last in
      let moved : nth xs last ≡ nth h.queue i =
        ground (arith, nth-exchanged h.queue i last last inside) in
      let whole = take-Perm xs last (omega (arith, length-exchanged h.queue i last)) in
      subst (λ q. Perm (nth h.queue i ∷ q) h.queue) (sym (shortened_queue h i))
        (Perm.trans (rw moved at whole) (exchanged-Perm h.queue i last inside (omega arith)))

  pub shortened_around :
      (h : Heap Tag Action) (i : ℕ)
      → i < length h.queue - 1
      → IsHeap h
      → OrderedAround (shortened h i) i × Bridges (shortened h i) i
  shortened_around h i inside ordered =
      let size = length-shortened h i in
      let at = λ (c : ℕ). key-shortened h i c (omega arith) in
      (
        (λ c p q r t. ground (arith, at c, at (parent c), ordered c, size)),
        (λ c low p q t. ground (arith, at c, at (parent i), ordered c, ordered i, size)),
      )

  pub shortened-IsHeap :
      (h : Heap Tag Action)
      → 0 < length h.queue
      → IsHeap h
      → IsHeap (shortened h (length h.queue - 1))
  shortened-IsHeap h some_left ordered c p q =
      let size = length-shortened h (length h.queue - 1) in
      let at = λ (d : ℕ). key-shortened h (length h.queue - 1) d (omega arith) in
      ground (arith, at c, at (parent c), ordered c, size)

  pub swapped_last :
      (h : Heap Tag Action) (i : ℕ)
      → i < length h.queue
      → nth (swapped h i (length h.queue - 1)).queue (length h.queue - 1) ≡ nth h.queue i
  swapped_last h i inside =
      let last = length h.queue - 1 in
      ap (λ (xs : List ℕ). nth xs last) (swapped_queue h i last)
      ∙ ground (arith, nth-exchanged h.queue i last last inside)

  pub shortened-Indexed :
      (h : Heap Tag Action) (i : ℕ) → i < length h.queue → Indexed h → Indexed (shortened h i)
  unfolding drop_last
  shortened-Indexed h i inside indexed c low =
      let last = length h.queue - 1 in
      let s = swapped h i last in
      let before = swapped-Indexed h i last inside (omega arith) indexed in
      let size = length-shortened h i in
      let long = length-swapped h i last in
      let place : nth (shortened h i).queue c ≡ nth s.queue c =
        ap (λ (xs : List ℕ). nth xs c) (shortened_queue h i)
        ∙ nth-take (exchanged h.queue i last) last c (omega (arith, low, size))
        ∙ ap (λ (xs : List ℕ). nth xs c) (sym (swapped_queue h i last)) in
      let written =
        index-set_index (record s { queue = take last s.queue }) (nth s.queue last) (nth s.queue c)
          none in
      ground (arith, place, written, before c, Indexed-apart s c last before, size, long)
