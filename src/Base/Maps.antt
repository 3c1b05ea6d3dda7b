-- ===== src/Base/Maps.antt =====
-- Go maps keyed by strings. `none` is the nil map: reading it gives the zero value, and writing to
-- it panics.
use Prim.Native.Nat.{ℕ}
use Prim.Native.String.{String}
use mathlib.Core.Path.{◌≡◌, refl}
use mathlib.Core.Bool.{true}
use mathlib.Core.List.{List, [], ◌∷◌}
use mathlib.Core.Option.{Option, none, some}
use text.Mathlib.TextEquality.{eq_iff}
use native.Mathlib.Omega.{arith}
use d_raft.Base.Tests.{if◌then◌else◌, is_some}
use d_raft.Base.Strings.{str_eq}
use d_raft.Base.Outcome.{Run, ok, panic, Returns, returns}

abbrev pub NodeMap : Type 0
NodeMap = Option (List (String × ℕ))

pub lookup_or_zero : List (String × ℕ) → String → ℕ
lookup_or_zero [] k = 0
lookup_or_zero ((j, v) ∷ m) k = if str_eq j k then v else lookup_or_zero m k

pub insert : List (String × ℕ) → String → ℕ → List (String × ℕ)
insert [] k v = (k, v) ∷ []
insert ((j, w) ∷ m) k v = if str_eq j k then (j, v) ∷ m else (j, w) ∷ insert m k v

unfoldable pub map_get : NodeMap → String → ℕ
unfolding lookup_or_zero
map_get none k = 0
map_get (some m) k = lookup_or_zero m k

pub map_set : NodeMap → String → ℕ → Run NodeMap
unfolding insert
map_set none k v = panic
map_set (some m) k v = ok (some (insert m k v))

pub lookup_or_zero-insert :
    (m : List (String × ℕ)) (k j : String) (v : ℕ)
    → lookup_or_zero (insert m k v) j ≡ (if str_eq k j then v else lookup_or_zero m j)
unfolding lookup_or_zero insert
lookup_or_zero-insert [] k j v = refl
lookup_or_zero-insert ((i, w) ∷ m) k j v =
    ground (arith, eq_iff k j, eq_iff i k, eq_iff i j, lookup_or_zero-insert m k j v)

-- A write to a map that is not nil returns a map that is not nil.
pub map_set-Returns :
    (m : NodeMap) (k : String) (v : ℕ)
    → is_some m ≡ true
    → Returns (λ r. is_some r ≡ true) (map_set m k v)
unfolding map_set
map_set-Returns none k v h = cc
map_set-Returns (some m) k v h = returns refl
