-- ===== src/Sim/Queue/Indexes.antt =====
-- queue.go: each event of the heap keeps its place in it.
use d_raft.Base.{
  ℕ, ◌<◌, ◌≡◌, refl, sym, ap, ◌∙◌, inl, inr, Bool-cases, Option, some, List, arith, ◌==◌,
  if◌then◌else◌, length,
}
use d_raft.Sim.Queue.{Heap, write_event, set_index}
use d_raft.Sim.Queue.Places.{nth, exchanged, nth-exchanged, swapped, swapped_queue, length-swapped}

module _ {Tag Action : Type 0} where
  abbrev pub Indexed : Heap Tag Action → Type 0
  Indexed h = (c : ℕ) → c < length h.queue → (h.events (nth h.queue c)).index ≡ some c

  pub Indexed-apart :
      (h : Heap Tag Action) (c d : ℕ)
      → Indexed h
      → c < length h.queue
      → d < length h.queue
      → nth h.queue c ≡ nth h.queue d
      → c ≡ d
  Indexed-apart h c d indexed p q e =
      let same : some c ≡ some d =
        sym (indexed c p) ∙ ap (λ (x : ℕ). (h.events x).index) e ∙ indexed d q in
      cc (same)

  pub index-set_index :
      (h : Heap Tag Action) (p q : ℕ) (i : Option ℕ)
      → ((set_index h p i).events q).index ≡ (if q == p then i else (h.events q).index)
  unfolding set_index write_event
  index-set_index h p q i = elim (Bool-cases (q == p)) [
    | inl same ↦ rw same refl
    | inr other ↦ rw other refl
  ]

  pub swapped-Indexed :
      (h : Heap Tag Action) (i j : ℕ)
      → i < length h.queue
      → j < length h.queue
      → Indexed h
      → Indexed (swapped h i j)
  swapped-Indexed h i j hi hj indexed c inside =
      let first = set_index (record h { queue = exchanged h.queue i j }) (nth h.queue j) (some i) in
      let x = nth (swapped h i j).queue c in
      let place : x
          ≡ (if j == c then nth h.queue i else if i == c then nth h.queue j else nth h.queue c) =
        ap (λ (xs : List ℕ). nth xs c) (swapped_queue h i j) ∙ nth-exchanged h.queue i j c hi hj in
      let low : c < length h.queue = omega (arith, inside, length-swapped h i j) in
      let outer = index-set_index first (nth h.queue i) x (some j) in
      let inner =
        index-set_index (record h { queue = exchanged h.queue i j }) (nth h.queue j) x (some i) in
      ground (
        arith,
        outer,
        inner,
        place,
        indexed c low,
        Indexed-apart h c i indexed low hi,
        Indexed-apart h c j indexed low hj,
        Indexed-apart h i j indexed hi hj,
      )
