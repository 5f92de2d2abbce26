-- ===== src/Prelude/HashSet.antt =====
-- `std::collections::HashSet` as a list without a promise about its order.
use kube.Prelude.Tests.{if◌then◌else◌}
use kube.Prelude.Eq.{EqLaws, ◌==◌, eq_refl, eq_sym, eq_cong}
use kube.Prelude.Lists.{length, find}
use Prim.Native.Nat.{suc, ◌≤◌, ◌<◌}
use mathlib.Core.Path.{◌≡◌, refl}
use mathlib.Core.Bool.{Bool, true, false, ◌||◌}
use mathlib.Core.Option.{some}
use mathlib.Core.List.{List, [], ◌∷◌}
use native.Mathlib.Omega.{arith}

module _ {ℓ} {A : Type ℓ} ⦃e : EqLaws A⦄ where
  unfoldable pub contains : List A → A → Bool
  contains [] a = false
  contains (x ∷ xs) a = x == a || contains xs a

  unfoldable pub insert : A → List A → List A
  unfolding contains
  insert a xs = if contains xs a then xs else a ∷ xs

  unfoldable pub remove : A → List A → List A
  remove a [] = []
  remove a (x ∷ xs) = let rest = remove a xs in if x == a then rest else x ∷ rest

  pub contains_cong : (a b : A) (xs : List A) → (a == b) ≡ true → contains xs a ≡ contains xs b
  unfolding contains
  contains_cong a b [] h = refl
  contains_cong a b (x ∷ xs) h =
      ground (arith, eq_cong a b x, eq_sym a x, eq_sym b x, contains_cong a b xs h)

  pub contains-insert :
      (a b : A) (xs : List A) → contains (insert a xs) b ≡ (a == b || contains xs b)
  unfolding insert contains
  contains-insert a b xs = ground (arith, contains_cong a b xs)

  pub contains-remove :
      (a b : A) (xs : List A) → contains (remove a xs) b ≡ (if a == b then false else contains xs b)
  unfolding remove contains
  contains-remove a b [] = ground arith
  contains-remove a b (x ∷ xs) =
      ground (arith, eq_cong x a b, eq_cong a b x, eq_sym x a, eq_sym x b, contains-remove a b xs)

  pub length-remove-le : (a : A) (xs : List A) → length (remove a xs) ≤ length xs
  unfolding remove
  length-remove-le a [] = omega arith
  length-remove-le a (x ∷ xs) = ground (arith, length-remove-le a xs)

  pub length-remove-lt :
      (a : A) (xs : List A) → contains xs a ≡ true → length (remove a xs) < length xs
  unfolding remove contains
  length-remove-lt a [] h = ground arith
  length-remove-lt a (x ∷ xs) h = ground (arith, length-remove-le a xs, length-remove-lt a xs)

  pub length-insert-le : (a : A) (xs : List A) → length (insert a xs) ≤ suc (length xs)
  unfolding insert
  length-insert-le a xs = ground arith

  pub contains-find :
      (p : A → Bool) (xs : List A) {a : A} → find p xs ≡ some a → contains xs a ≡ true
  unfolding find contains
  contains-find p [] h = ground arith
  contains-find p (x ∷ xs) {a = b} h = ground (arith, eq_refl x, contains-find p xs {a = b})
