-- ===== src/Base/Outcome.antt =====
-- A Go call that may panic, and the rules for calls that return.
use mathlib.Core.Path.{◌≡◌, refl}
use mathlib.Core.Logic.{◌⊎◌, inl, inr}
use mathlib.Core.Bool.{Bool, true, false}
use mathlib.Core.Option.{Option, none, some}
use d_raft.Base.Tests.{if◌then◌else◌}

pub data Run {i} (S : Type i) : Type i where
  ok : S → Run S
  panic : Run S

infixl 5 ◌>>=◌
abbrev pub ◌>>=◌ {i j} : {S : Type i} {T : Type j} → Run S → (S → Run T) → Run T
ok v >>= next = next v
panic >>= next = panic

abbrev pub or_panic {i} : {S : Type i} → Option S → Run S
or_panic (some v) = ok v
or_panic none = panic

-- Every value that the run returns satisfies `Good`.
pub data Ensures {i j} {S : Type i} (Good : S → Type j) : Run S → Type (i ⊔ j) where
  ensures : {v : S} → Good v → Ensures Good (ok v)
  panics : Ensures Good panic

-- The run returns, with a value that satisfies `Good`.
pub data Returns {i j} {S : Type i} (Good : S → Type j) : Run S → Type (i ⊔ j) where
  returns : {v : S} → Good v → Returns Good (ok v)

module _ {i j} {S : Type i} {Good : S → Type j} where
  pub Ensures-bind {i' j'} :
      {T : Type i'} {Fine : T → Type j'} {call : Run S} {next : S → Run T}
      → Ensures Good call
      → ((v : S) → Good v → Ensures Fine (next v))
      → Ensures Fine (call >>= next)
  Ensures-bind (ensures good) then_by = then_by _ good
  Ensures-bind panics then_by = panics

  pub Ensures-if :
      {first second : Run S} (w : Bool)
      → (w ≡ true → Ensures Good first)
      → (w ≡ false → Ensures Good second)
      → Ensures Good (if w then first else second)
  Ensures-if true good other = good refl
  Ensures-if false good other = other refl

  pub Returns-bind {i' j'} :
      {T : Type i'} {Fine : T → Type j'} {call : Run S} {next : S → Run T}
      → Returns Good call
      → ((v : S) → Good v → Returns Fine (next v))
      → Returns Fine (call >>= next)
  Returns-bind (returns good) then_by = then_by _ good

  pub Returns-if :
      {first second : Run S} (w : Bool)
      → (w ≡ true → Returns Good first)
      → (w ≡ false → Returns Good second)
      → Returns Good (if w then first else second)
  Returns-if true good other = good refl
  Returns-if false good other = other refl

  pub Returns-Ensures : {call : Run S} → Returns Good call → Ensures Good call
  Returns-Ensures (returns good) = ensures good

  pub Returns-value : {call : Run S} → Returns Good call → (v : S) × (call ≡ ok v) × Good v
  Returns-value (returns good) = (_, refl, good)

  pub Ensures-value :
      {call : Run S} → Ensures Good call → Ensures (λ v. (call ≡ ok v) × Good v) call
  Ensures-value (ensures good) = ensures (refl, good)
  Ensures-value panics = panics

  -- What a run that returns ensures, it returns.
  pub Returns-Ensured {j'} :
      {Fine : S → Type j'} {call : Run S}
      → Returns Good call
      → Ensures Fine call
      → Returns Fine call
  Returns-Ensured (returns good) (ensures fine) = returns fine

  -- What a run returns may be of no interest.
  pub Ensures-after {i'} :
      {T : Type i'} (call : Run T) {next : T → Run S}
      → ((w : T) → Ensures Good (next w))
      → Ensures Good (call >>= next)
  Ensures-after (ok w) then_by = then_by w
  Ensures-after panic then_by = panics

  pub Ensures-map {j'} :
      {Fine : S → Type j'} {call : Run S}
      → Ensures Good call
      → ((v : S) → Good v → Fine v)
      → Ensures Fine call
  Ensures-map (ensures good) then_by = ensures (then_by _ good)
  Ensures-map panics then_by = panics

  pub Returns-map {j'} :
      {Fine : S → Type j'} {call : Run S}
      → Returns Good call
      → ((v : S) → Good v → Fine v)
      → Returns Fine call
  Returns-map (returns good) then_by = returns (then_by _ good)

  pub Ensures-option {j'} :
      {T : Type j'} {first : Run S} {next : T → Run S} (found : Option T)
      → (found ≡ none → Ensures Good first)
      → ((w : T) → found ≡ some w → Ensures Good (next w))
      → Ensures Good (elim found [ none ↦ first | some w ↦ next w ])
  Ensures-option none good other = good refl
  Ensures-option (some w) good other = other w refl

  pub Returns-option {j'} :
      {T : Type j'} {first : Run S} {next : T → Run S} (found : Option T)
      → (found ≡ none → Returns Good first)
      → ((w : T) → found ≡ some w → Returns Good (next w))
      → Returns Good (elim found [ none ↦ first | some w ↦ next w ])
  Returns-option none good other = good refl
  Returns-option (some w) good other = other w refl

pub >>=_assoc {i j μ} :
    {S : Type i} {T : Type j} {V : Type μ} (call : Run S) (next : S → Run T) (last : T → Run V)
    → (call >>= next >>= last) ≡ (call >>= λ v. next v >>= last)
>>=_assoc (ok v) next last = refl
>>=_assoc panic next last = refl

pub Run-cases {i} : {S : Type i} (call : Run S) → (call ≡ panic) ⊎ ((v : S) × (call ≡ ok v))
Run-cases panic = inl refl
Run-cases (ok v) = inr (v, refl)
