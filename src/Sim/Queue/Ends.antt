-- ===== src/Sim/Queue/Ends.antt =====
-- queue.go: lists of pointers that gain or lose their last one.
use mathlib.Core.List.{Perm}
use mathlib.Core.List.Perm
use d_raft.Base.{
  ℕ, zero, suc, ◌<◌, ◌≡◌, refl, ap, List, [], ◌∷◌, ◌++◌, arith, ltb, ◌==◌, if◌then◌else◌, length,
  take,
}
use d_raft.Sim.Queue.Places.{nth}

pub nth-append :
    (xs : List ℕ) (x c : ℕ)
    → nth (xs ++ x ∷ []) c
      ≡ (if ltb c (length xs) then nth xs c else if c == length xs then x else 0)
unfolding nth
nth-append [] x zero = refl
nth-append [] x (suc c) = ground arith
nth-append (y ∷ xs) x zero = ground arith
nth-append (y ∷ xs) x (suc c) = ground (arith, nth-append xs x c)

pub length-snoc : (xs : List ℕ) (x : ℕ) → length (xs ++ x ∷ []) ≡ suc (length xs)
length-snoc [] x = refl
length-snoc (y ∷ xs) x = ap suc (length-snoc xs x)

pub nth-take : (xs : List ℕ) (n c : ℕ) → c < n → nth (take n xs) c ≡ nth xs c
unfolding nth
nth-take xs zero c h = absurd (omega arith)
nth-take [] (suc n) c h = refl
nth-take (y ∷ xs) (suc n) zero h = refl
nth-take (y ∷ xs) (suc n) (suc c) h = nth-take xs n c (omega arith)

pub take-Perm : (xs : List ℕ) (n : ℕ) → length xs ≡ suc n → Perm (nth xs n ∷ take n xs) xs
unfolding nth
take-Perm [] n h = absurd (omega arith)
take-Perm (x ∷ []) zero h = Perm.rfl
take-Perm (x ∷ y ∷ ys) zero h = absurd (omega arith)
take-Perm (x ∷ xs) (suc n) h =
    Perm.trans (Perm.swap x (nth xs n) (take n xs)) (Perm.cons x (take-Perm xs n (omega arith)))
