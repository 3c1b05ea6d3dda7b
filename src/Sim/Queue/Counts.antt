-- ===== src/Sim/Queue/Counts.antt =====
-- queue.go: how often a pointer stands in the heap.
use mathlib.Core.List.{Perm, Permᴰ}
use mathlib.Core.Logic.{∥∥₁_elim}
use native.Mathlib.Nat.{ℕ_set}
use d_raft.Base.{
  ℕ, zero, suc, ◌≤◌, ◌<◌, ◌≡◌, ◌∙◌, refl, ap, Bool-cases, inl, inr, List, [], ◌∷◌, arith, ◌==◌,
  if◌then◌else◌, length,
}
use d_raft.Sim.Queue.{Heap}
use d_raft.Sim.Queue.Places.{nth}
use d_raft.Sim.Queue.Indexes.{Indexed, Indexed-apart}

unfoldable pub count : ℕ → List ℕ → ℕ
count p [] = 0
count p (x ∷ xs) = if x == p then suc (count p xs) else count p xs

pub count_cons :
    (p x : ℕ) (xs : List ℕ) → count p (x ∷ xs) ≡ (if x == p then suc (count p xs) else count p xs)
unfolding count
count_cons p x xs = refl

pub count_cons_self : (p : ℕ) (xs : List ℕ) → count p (p ∷ xs) ≡ suc (count p xs)
unfolding count
count_cons_self p xs = ground arith

pub count-nth : (xs : List ℕ) (c : ℕ) → c < length xs → 0 < count (nth xs c) xs
unfolding count nth
count-nth [] c h = absurd (omega arith)
count-nth (x ∷ xs) zero h = ground arith
count-nth (x ∷ xs) (suc c) h = ground (arith, count-nth xs c (omega arith))

pub nth-count : (p : ℕ) (xs : List ℕ) → 0 < count p xs → (c : ℕ) × (c < length xs) × (nth xs c ≡ p)
unfolding count nth
nth-count p [] h = absurd (omega arith)
nth-count p (x ∷ xs) h = elim (Bool-cases (x == p)) [
  | inl same ↦ (0, omega arith, ground arith)
  | inr other ↦
      let (c, low, found) = nth-count p xs (ground arith) in (suc c, omega (arith, low), found)
]

pub count-apart :
    (p : ℕ) (xs : List ℕ)
    → ((c d : ℕ) → c < length xs → d < length xs → nth xs c ≡ nth xs d → c ≡ d)
    → count p xs ≤ 1
unfolding count nth
count-apart p [] apart = omega arith
count-apart p (x ∷ xs) apart =
    let rest =
      count-apart p xs (λ c d q r e.
        omega (arith, apart (suc c) (suc d) (omega (arith, q)) (omega (arith, r)) e)) in
    elim (Bool-cases (x == p)) [
      | inl same ↦
          let alone : ¬ (0 < count p xs) = λ more.
            let (c, low, found) = nth-count p xs more in
            let again : 0 ≡ suc c =
              apart 0 (suc c) (omega arith) (omega (arith, low)) (ground arith) in
            omega (arith, again) in
          ground (arith, alone)
      | inr other ↦ ground (arith, rest)
    ]

counted : (p : ℕ) {xs ys : List ℕ} → Permᴰ xs ys → count p xs ≡ count p ys
unfolding count
counted p Permᴰ.nil = refl
counted p (Permᴰ.cons e m) = ground (arith, e, counted p m)
counted p (Permᴰ.swap e f) = ground (arith, e, f)
counted p (Permᴰ.trans m n) = counted p m ∙ counted p n

pub count-Perm : (p : ℕ) (xs ys : List ℕ) → Perm xs ys → count p xs ≡ count p ys
count-Perm p xs ys m = ∥∥₁_elim m (ℕ_set (count p xs) (count p ys)) (counted p)

same_length : {xs ys : List ℕ} → Permᴰ xs ys → length xs ≡ length ys
same_length Permᴰ.nil = refl
same_length (Permᴰ.cons e m) = ap suc (same_length m)
same_length (Permᴰ.swap e f) = refl
same_length (Permᴰ.trans m n) = same_length m ∙ same_length n

pub length-Perm : (xs ys : List ℕ) → Perm xs ys → length xs ≡ length ys
length-Perm xs ys m = ∥∥₁_elim m (ℕ_set (length xs) (length ys)) same_length

module _ {Tag Action : Type 0} where
  -- A heap whose events keep their places holds each pointer once.
  pub count-Indexed : (h : Heap Tag Action) (p : ℕ) → Indexed h → count p h.queue ≤ 1
  count-Indexed h p indexed = count-apart p h.queue (λ c d q r e. Indexed-apart h c d indexed q r e)
