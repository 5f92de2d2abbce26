-- ===== src/Prelude/HashMap.antt =====
-- `std::collections::HashMap` as an association list without a promise about its order. As in
-- Rust, an insertion at a key that is present keeps the old key and replaces the value.
use kube.Prelude.Tests.{if◌then◌else◌, is_some}
use kube.Prelude.Eq.{EqLaws, ◌==◌, eq_sym, eq_cong}
use kube.Prelude.Lists.{length}
use Prim.Native.Nat.{ℕ}
use mathlib.Core.Path.{◌≡◌, refl}
use mathlib.Core.Bool.{Bool, true, false}
use mathlib.Core.Option.{Option, none, some}
use mathlib.Core.List.{List, [], ◌∷◌, map}
use native.Mathlib.Omega.{arith}

pub record HashMap {ℓ κ} (K : Type ℓ) (V : Type κ) : Type (ℓ ⊔ κ) where
  pub entries : List (K × V)

module _ {ℓ κ} {K : Type ℓ} {V : Type κ} where
  unfoldable pub empty : HashMap K V
  empty = record { entries = [] }

  unfoldable pub len : HashMap K V → ℕ
  len m = length m.entries

  unfoldable pub values : HashMap K V → List V
  values m = map (λ e. e.1) m.entries

module _ {ℓ κ} {K : Type ℓ} {V : Type κ} ⦃e : EqLaws K⦄ where
  unfoldable pub lookup : K → List (K × V) → Option V
  lookup k [] = none
  lookup k ((j, v) ∷ l) = if j == k then some v else lookup k l

  unfoldable pub put : K → V → List (K × V) → List (K × V)
  put k v [] = (k, v) ∷ []
  put k v ((j, w) ∷ l) = if j == k then (j, v) ∷ l else (j, w) ∷ put k v l

  unfoldable pub without : K → List (K × V) → List (K × V)
  without k [] = []
  without k ((j, v) ∷ l) = let rest = without k l in if j == k then rest else (j, v) ∷ rest

  unfoldable pub get : HashMap K V → K → Option V
  unfolding lookup
  get m k = lookup k m.entries

  unfoldable pub insert : K → V → HashMap K V → HashMap K V
  unfolding put
  insert k v m = record { entries = put k v m.entries }

  unfoldable pub remove : K → HashMap K V → HashMap K V
  unfolding without
  remove k m = record { entries = without k m.entries }

  unfoldable pub contains_key : HashMap K V → K → Bool
  unfolding get
  contains_key m k = is_some (get m k)

  pub get-empty : (k : K) → get (empty {V = V}) k ≡ none
  unfolding get empty
  get-empty k = refl

  pub lookup-put :
      (k j : K) (v : V) (l : List (K × V))
      → lookup j (put k v l) ≡ (if k == j then some v else lookup j l)
  unfolding lookup put
  lookup-put k j v [] = refl
  lookup-put k j v ((i, w) ∷ l) =
      ground (arith, eq_cong k j i, eq_sym i k, eq_sym i j, eq_cong i k j, lookup-put k j v l)

  lookup-without :
      (k j : K) (l : List (K × V)) → lookup j (without k l) ≡ (if k == j then none else lookup j l)
  unfolding lookup without
  lookup-without k j [] = ground arith
  lookup-without k j ((i, w) ∷ l) =
      ground (arith, eq_cong i k j, eq_cong k j i, eq_sym i k, eq_sym i j, lookup-without k j l)

  pub get-insert :
      (k j : K) (v : V) (m : HashMap K V)
      → get (insert k v m) j ≡ (if k == j then some v else get m j)
  unfolding get insert
  get-insert k j v m = lookup-put k j v m.entries

  pub get-remove :
      (k j : K) (m : HashMap K V) → get (remove k m) j ≡ (if k == j then none else get m j)
  unfolding get remove
  get-remove k j m = lookup-without k j m.entries

  pub contains_key-get : (m : HashMap K V) (k : K) → contains_key m k ≡ false → get m k ≡ none
  unfolding contains_key
  contains_key-get m k h = ground arith

  lookup_cong : (k j : K) (l : List (K × V)) → (k == j) ≡ true → lookup k l ≡ lookup j l
  unfolding lookup
  lookup_cong k j [] h = refl
  lookup_cong k j ((i, v) ∷ l) h =
      ground (arith, eq_cong k j i, eq_sym k i, eq_sym j i, lookup_cong k j l h)

  -- Equal keys find the same value.
  pub get_cong : (k j : K) (m : HashMap K V) → (k == j) ≡ true → get m k ≡ get m j
  unfolding get
  get_cong k j m = lookup_cong k j m.entries
