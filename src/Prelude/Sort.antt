-- ===== src/Prelude/Sort.antt =====
-- Rust's `sort_by_cached_key`: a stable sort, which has one result, here by insertion.
use Prim.Native.Nat.{ℕ, suc, Ordering}
use mathlib.Core.Path.{◌≡◌, refl, sym, ap, subst, ◌∙◌}
use mathlib.Core.Logic.{inl, inr}
use mathlib.Core.Bool.{Bool, true, false}
use mathlib.Core.List.{List, [], ◌∷◌, ◌++◌}
use native.Mathlib.Omega.{arith}
use kube.Prelude.Tests.{if◌then◌else◌, Bool-cases}
use kube.Prelude.Lists.{All}
use kube.Prelude.Ord.{OrdLaws, cmp, cmp_refl, is_le, flip}

module _ {A : Type 0} where
  -- How many elements pass a test.
  abbrev pub count : (A → Bool) → List A → ℕ
  count p [] = 0
  count p (x ∷ xs) = if p x then suc (count p xs) else count p xs

at_most : (o : Ordering) → is_le o ≡ false → is_le (flip o) ≡ true
at_most Ordering.lt h = absurd cc
at_most Ordering.eq h = refl
at_most Ordering.gt h = refl

module _ {A B : Type 0} ⦃o : OrdLaws B⦄ where
  -- Before the first element whose key is not smaller.
  abbrev insert_by : (A → B) → A → List A → List A
  insert_by key x [] = x ∷ []
  insert_by key x (y ∷ ys) =
      let rest = insert_by key x ys in if is_le (cmp (key x) (key y)) then x ∷ y ∷ ys else y ∷ rest

  unfoldable pub sort_by_key : (A → B) → List A → List A
  sort_by_key key [] = []
  sort_by_key key (x ∷ xs) = insert_by key x (sort_by_key key xs)

  abbrev pub Below : (A → B) → A → A → Type 0
  Below key x y = is_le (cmp (key x) (key y)) ≡ true

  -- Every element is at most all that come after it.
  abbrev pub IsSorted : (A → B) → List A → Type 0
  IsSorted key [] = Unit
  IsSorted key (x ∷ xs) = All (Below key x) xs × IsSorted key xs

  Below-All :
      (key : A → B) (x y : A) (ys : List A)
      → Below key x y
      → All (Below key y) ys
      → All (Below key x) ys
  Below-All key x y [] h all = tt
  Below-All key x y (z ∷ zs) h all =
      (o.compare_trans (key x) (key y) (key z) h all.0, Below-All key x y zs h all.1)

  not-Below : (key : A → B) (x y : A) → is_le (cmp (key x) (key y)) ≡ false → Below key y x
  not-Below key x y h = rw (o.compare_swap (key x) (key y)) (at_most _ h)

  insert-All :
      (P : A → Type 0) (key : A → B) (x : A) (ys : List A)
      → P x
      → All P ys
      → All P (insert_by key x ys)
  insert-All P key x [] px all = (px, tt)
  insert-All P key x (y ∷ ys) px all = elim (Bool-cases (is_le (cmp (key x) (key y)))) [
    | inl h ↦ rw h (px, all)
    | inr h ↦ rw h (all.0, insert-All P key x ys px all.1)
  ]

  insert-IsSorted :
      (key : A → B) (x : A) (ys : List A) → IsSorted key ys → IsSorted key (insert_by key x ys)
  insert-IsSorted key x [] sorted = (tt, tt)
  insert-IsSorted key x (y ∷ ys) sorted = elim (Bool-cases (is_le (cmp (key x) (key y)))) [
    | inl h ↦ rw h ((h, Below-All key x y ys h sorted.0), sorted)
    | inr h ↦ rw h (
      insert-All (Below key y) key x ys (not-Below key x y h) sorted.0,
      insert-IsSorted key x ys sorted.1,
    )
  ]

  pub sort-IsSorted : (key : A → B) (xs : List A) → IsSorted key (sort_by_key key xs)
  unfolding sort_by_key
  sort-IsSorted key [] = tt
  sort-IsSorted key (x ∷ xs) = insert-IsSorted key x (sort_by_key key xs) (sort-IsSorted key xs)

  count-insert :
      (p : A → Bool) (key : A → B) (x : A) (ys : List A)
      → count p (insert_by key x ys) ≡ count p (x ∷ ys)
  count-insert p key x [] = refl
  count-insert p key x (y ∷ ys) = elim (Bool-cases (is_le (cmp (key x) (key y)))) [
    | inl h ↦ rw h refl
    | inr h ↦ ground (arith, h, count-insert p key x ys)
  ]

  pub sort-All :
      (P : A → Type 0) (key : A → B) (xs : List A) → All P xs → All P (sort_by_key key xs)
  unfolding sort_by_key
  sort-All P key [] all = tt
  sort-All P key (x ∷ xs) all =
      insert-All P key x (sort_by_key key xs) all.0 (sort-All P key xs all.1)

  insert-cons :
      (key : A → B) (x : A) (ys : List A) → (z : A) × (zs : List A) × (insert_by key x ys ≡ z ∷ zs)
  insert-cons key x [] = (x, [], refl)
  insert-cons key x (y ∷ ys) = elim (Bool-cases (is_le (cmp (key x) (key y)))) [
    | inl h ↦ (x, y ∷ ys, rw h refl)
    | inr h ↦ (y, insert_by key x ys, rw h refl)
  ]

  pub sort-cons :
      (key : A → B) (x : A) (xs : List A)
      → (z : A) × (zs : List A) × (sort_by_key key (x ∷ xs) ≡ z ∷ zs)
  unfolding sort_by_key
  sort-cons key x xs = insert-cons key x (sort_by_key key xs)

  -- An element that all before it come strictly after, and that comes not after those behind it.
  abbrev pub IsFirst : (A → B) → List A → A → Type 0
  IsFirst key xs z =
      (before : List A) × (behind : List A) × (xs ≡ before ++ (z ∷ behind))
      × All (λ w. is_le (cmp (key w) (key z)) ≡ false) before
      × All (Below key z) behind

  Strict-Below :
      (key : A → B) (z : A) (ws : List A)
      → All (λ w. is_le (cmp (key w) (key z)) ≡ false) ws
      → All (Below key z) ws
  Strict-Below key z [] all = tt
  Strict-Below key z (w ∷ ws) all = (not-Below key w z all.0, Strict-Below key z ws all.1)

  Below-append :
      (key : A → B) (z : A) (v w : List A)
      → All (Below key z) v
      → All (Below key z) w
      → All (Below key z) (v ++ w)
  Below-append key z [] w a b = b
  Below-append key z (x ∷ v) w a b = (a.0, Below-append key z v w a.1 b)

  -- The sort is stable: of the least elements, the first comes first.
  pub sort-IsFirst :
      (key : A → B) (x : A) (xs : List A)
      → (z : A) × (zs : List A) × (sort_by_key key (x ∷ xs) ≡ z ∷ zs) × IsFirst key (x ∷ xs) z
  unfolding sort_by_key
  sort-IsFirst key x [] = (x, [], refl, ([], [], refl, tt, tt))
  sort-IsFirst key x (y ∷ ys) =
      let (z, zs, h, (before, behind, split, less, rest)) = sort-IsFirst key y ys in
      elim (Bool-cases (is_le (cmp (key x) (key z)))) [
        | inl le ↦
            let all =
              Below-append key z before (z ∷ behind) (Strict-Below key z before less)
                (rw (cmp_refl (key z)) refl, rest) in
            (
              x,
              z ∷ zs,
              ap (insert_by key x) h ∙ rw le refl,
              (
                [],
                y ∷ ys,
                refl,
                tt,
                Below-All key x z (y ∷ ys) le (subst (All (Below key z)) (sym split) all),
              ),
            )
        | inr gt ↦ (
          z,
          insert_by key x zs,
          ap (insert_by key x) h ∙ rw gt refl,
          (x ∷ before, behind, ap (λ l. x ∷ l) split, (gt, less), rest),
        )
      ]

  -- Sorting moves elements, and neither adds nor drops any.
  pub count-sort :
      (p : A → Bool) (key : A → B) (xs : List A) → count p (sort_by_key key xs) ≡ count p xs
  unfolding sort_by_key
  count-sort p key [] = refl
  count-sort p key (x ∷ xs) =
      count-insert p key x (sort_by_key key xs) ∙ ground (arith, count-sort p key xs)
