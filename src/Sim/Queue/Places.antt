-- ===== src/Sim/Queue/Places.antt =====
-- queue.go: the pointers of a heap by their places, and what a swap does to the ranks of their events.
use mathlib.Core.List.{Perm}
use mathlib.Core.List.Perm
use d_raft.Base.{
  ℕ, zero, suc, ◌+◌, ◌*◌, ◌<◌, ◌≡◌, refl, ap, ◌∙◌, Bool, true, false, Option, some, inl, inr,
  Bool-cases, List, [], ◌∷◌, arith, ltb, ◌==◌, if◌then◌else◌, length, get_elem?, ok, u64,
}
use d_raft.Sim.Queue.{ScheduledEvent, Heap, set_elem, write_event, set_index, earlier, less, swap}

-- The pointer at a place, or 0 past the end.
unfoldable pub nth : List ℕ → ℕ → ℕ
nth [] i = 0
nth (x ∷ xs) zero = x
nth (x ∷ xs) (suc i) = nth xs i

pub get_elem?-nth : (xs : List ℕ) (i : ℕ) → i < length xs → get_elem? xs i ≡ some (nth xs i)
unfolding nth
get_elem?-nth [] i h = absurd (omega arith)
get_elem?-nth (x ∷ xs) zero h = refl
get_elem?-nth (x ∷ xs) (suc i) h = get_elem?-nth xs i (omega arith)

pub length-set_elem : (xs : List ℕ) (i x : ℕ) → length (set_elem xs i x) ≡ length xs
unfolding set_elem
length-set_elem [] i x = refl
length-set_elem (y ∷ ys) zero x = refl
length-set_elem (y ∷ ys) (suc i) x = ap suc (length-set_elem ys i x)

pub nth-set_elem :
    (xs : List ℕ) (i j x : ℕ)
    → i < length xs
    → nth (set_elem xs i x) j ≡ (if i == j then x else nth xs j)
unfolding nth set_elem
nth-set_elem [] i j x h = absurd (omega arith)
nth-set_elem (y ∷ ys) zero zero x h = refl
nth-set_elem (y ∷ ys) zero (suc j) x h = ground arith
nth-set_elem (y ∷ ys) (suc i) zero x h = ground arith
nth-set_elem (y ∷ ys) (suc i) (suc j) x h = ground (arith, nth-set_elem ys i j x)

-- Writing at a place trades the pointer there for another.
set_elem_trade :
    (xs : List ℕ) (i x : ℕ) → i < length xs → Perm (nth xs i ∷ set_elem xs i x) (x ∷ xs)
unfolding nth set_elem
set_elem_trade [] i x h = absurd (omega arith)
set_elem_trade (y ∷ ys) zero x h = Perm.swap x y ys
set_elem_trade (y ∷ ys) (suc i) x h =
    Perm.trans (Perm.swap y _ _)
      (Perm.trans (Perm.cons y (set_elem_trade ys i x (omega arith))) (Perm.swap x y ys))

-- The queue with two places exchanged.
abbrev pub exchanged : List ℕ → ℕ → ℕ → List ℕ
exchanged xs i j = set_elem (set_elem xs i (nth xs j)) j (nth xs i)

pub length-exchanged : (xs : List ℕ) (i j : ℕ) → length (exchanged xs i j) ≡ length xs
length-exchanged xs i j = length-set_elem _ j _ ∙ length-set_elem xs i _

pub nth-exchanged :
    (xs : List ℕ) (i j c : ℕ)
    → i < length xs
    → j < length xs
    → nth (exchanged xs i j) c
      ≡ (if j == c then nth xs i else if i == c then nth xs j else nth xs c)
nth-exchanged xs i j c hi hj = ground (
  arith,
  nth-set_elem (set_elem xs i (nth xs j)) j c (nth xs i),
  nth-set_elem xs i c (nth xs j) hi,
  length-set_elem xs i (nth xs j),
)

pub exchanged-Perm :
    (xs : List ℕ) (i j : ℕ) → i < length xs → j < length xs → Perm (exchanged xs i j) xs
exchanged-Perm xs i j hi hj =
    let b = set_elem xs i (nth xs j) in
    let kept : nth b j ≡ nth xs j = ground (arith, nth-set_elem xs i j (nth xs j) hi) in
    let first = set_elem_trade xs i (nth xs j) hi in
    let second = set_elem_trade b j (nth xs i) (omega (arith, length-set_elem xs i (nth xs j))) in
    Perm.cons_inv (Perm.trans (rw kept at second) first)

pub choose_apply :
    (f : ℕ → ℕ) (b : Bool) (x y : ℕ) → f (if b then x else y) ≡ (if b then f x else f y)
choose_apply f true x y = refl
choose_apply f false x y = refl

module _ {Tag Action : Type 0} where
  -- The order of the heap as the order of one number: identifiers are below 2^64.
  abbrev pub rank : ScheduledEvent Tag Action → ℕ
  rank e = e.when * u64 + e.id

  abbrev pub Sized : (ℕ → ScheduledEvent Tag Action) → Type 0
  Sized events = (p : ℕ) → (events p).id < u64

  pub earlier-rank :
      (a b : ScheduledEvent Tag Action)
      → a.id < u64
      → b.id < u64
      → earlier a b ≡ ltb (rank a) (rank b)
  unfolding earlier
  earlier-rank a b ha hb = ground arith

  -- The rank of the event at a place.
  abbrev pub key : Heap Tag Action → ℕ → ℕ
  key h i = rank (h.events (nth h.queue i))

  -- Two stores differ at most in the places that the events keep.
  abbrev pub Alike : (ℕ → ScheduledEvent Tag Action) → (ℕ → ScheduledEvent Tag Action) → Type 0
  Alike e f =
      (p : ℕ)
      → ((f p).id ≡ (e p).id)
        × ((f p).when ≡ (e p).when)
        × ((f p).tag ≡ (e p).tag)
        × ((f p).action ≡ (e p).action)

  pub Alike-trans : (e f g : ℕ → ScheduledEvent Tag Action) → Alike e f → Alike f g → Alike e g
  Alike-trans e f g a b p =
      ((b p).0 ∙ (a p).0, (b p).1 ∙ (a p).1, (b p).2 ∙ (a p).2, (b p).3 ∙ (a p).3)

  pub set_index-Alike :
      (h : Heap Tag Action) (p : ℕ) (i : Option ℕ) → Alike h.events (set_index h p i).events
  unfolding set_index write_event
  set_index-Alike h p i q = elim (Bool-cases (q == p)) [
    | inl same ↦ let e : q ≡ p = ground arith in rw same (cc e, cc e, cc e, cc e)
    | inr other ↦ rw other (refl, refl, refl, refl)
  ]

  abbrev pub swapped : Heap Tag Action → ℕ → ℕ → Heap Tag Action
  swapped h i j =
      set_index (set_index (record h { queue = exchanged h.queue i j }) (nth h.queue j) (some i))
        (nth h.queue i) (some j)

  pub swap-ok :
      (h : Heap Tag Action) (i j : ℕ)
      → i < length h.queue
      → j < length h.queue
      → swap h i j ≡ ok (swapped h i j)
  unfolding swap
  swap-ok h i j hi hj = rw (get_elem?-nth h.queue i hi, get_elem?-nth h.queue j hj) refl

  pub less-ok :
      (h : Heap Tag Action) (i j : ℕ)
      → Sized h.events
      → i < length h.queue
      → j < length h.queue
      → less h i j ≡ ok (ltb (key h i) (key h j))
  unfolding less
  less-ok h i j sized hi hj =
      rw (get_elem?-nth h.queue i hi, get_elem?-nth h.queue j hj)
        (ap ok
          (earlier-rank (h.events (nth h.queue i)) (h.events (nth h.queue j)) (sized _) (sized _)))

  pub swapped_queue :
      (h : Heap Tag Action) (i j : ℕ) → (swapped h i j).queue ≡ exchanged h.queue i j
  unfolding set_index
  swapped_queue h i j = refl

  pub swapped-Alike : (h : Heap Tag Action) (i j : ℕ) → Alike h.events (swapped h i j).events
  swapped-Alike h i j =
      let b = record h { queue = exchanged h.queue i j } in
      Alike-trans h.events (set_index b (nth h.queue j) (some i)).events (swapped h i j).events
        (set_index-Alike b (nth h.queue j) (some i))
        (set_index-Alike (set_index b (nth h.queue j) (some i)) (nth h.queue i) (some j))

  pub key-swapped :
      (h : Heap Tag Action) (i j c : ℕ)
      → i < length h.queue
      → j < length h.queue
      → key (swapped h i j) c ≡ (if j == c then key h i else if i == c then key h j else key h c)
  unfolding set_index set_elem
  key-swapped h i j c hi hj =
      let x = nth (exchanged h.queue i j) c in
      let a = swapped-Alike h i j x in
      let same : rank ((swapped h i j).events x) ≡ rank (h.events x) = omega (arith, a.0, a.1) in
      same
      ∙ ap (λ (y : ℕ). rank (h.events y)) (nth-exchanged h.queue i j c hi hj)
      ∙ choose_apply (λ y. rank (h.events y)) (j == c) (nth h.queue i)
          (if i == c then nth h.queue j else nth h.queue c)
      ∙ ap (λ (y : ℕ). if j == c then key h i else y)
          (choose_apply (λ y. rank (h.events y)) (i == c) (nth h.queue j) (nth h.queue c))

  pub length-swapped :
      (h : Heap Tag Action) (i j : ℕ) → length (swapped h i j).queue ≡ length h.queue
  length-swapped h i j = ap length (swapped_queue h i j) ∙ length-exchanged h.queue i j
