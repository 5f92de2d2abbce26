-- ===== src/Prelude/Results.antt =====
-- Rust's `Result` and `Poll`, and streams.
use mathlib.Core.List.{List, [], ◌∷◌}
use mathlib.Core.Path.{◌≡◌, refl}
use mathlib.Core.Logic.{◌⊎◌, inl, inr}
use mathlib.Core.Option.{Option, none, some}

pub data Result {κ ℓ} (E : Type κ) (A : Type ℓ) : Type (κ ⊔ ℓ) where
  ok : A → Result E A
  err : E → Result E A

infixl 5 ◌>>=◌
abbrev pub ◌>>=◌ {κ ℓ ℓ'} :
    {E : Type κ} {A : Type ℓ} {B : Type ℓ'} → Result E A → (A → Result E B) → Result E B
ok a >>= f = f a
err e >>= f = err e

pub data Poll {ℓ} (A : Type ℓ) : Type ℓ where
  ready : A → Poll A
  pending : Poll A

-- A stream from outside is what it will answer, poll by poll. When the answers have run out it is
-- pending.
abbrev pub Stream {ℓ} : Type ℓ → Type ℓ
Stream A = List (Poll (Option A))

abbrev pub poll_stream {ℓ} : {A : Type ℓ} → Stream A → Poll (Option A) × Stream A
poll_stream [] = (pending, [])
poll_stream (answer ∷ rest) = (answer, rest)

-- To split on what a poll of a stream gave, and keep the equation.
pub polled_cases {ℓ κ} :
    {A : Type ℓ} {S : Type κ} (r : Poll (Option A) × S)
    → ((s : S) × (r ≡ (pending, s)))
      ⊎ (((s : S) × (r ≡ (ready none, s))) ⊎ ((a : A) × (s : S) × (r ≡ (ready (some a), s))))
polled_cases (pending, s) = inl (s, refl)
polled_cases (ready none, s) = inr (inl (s, refl))
polled_cases (ready (some a), s) = inr (inr (a, s, refl))

pub Result-cases {ℓ κ} :
    {E : Type κ} {A : Type ℓ} (r : Result E A) → ((x : E) × (r ≡ err x)) ⊎ ((a : A) × (r ≡ ok a))
Result-cases (err x) = inl (x, refl)
Result-cases (ok a) = inr (a, refl)
