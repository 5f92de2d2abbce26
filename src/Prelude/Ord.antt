-- ===== src/Prelude/Ord.antt =====
-- Rust's `Ord`, as an interface: a comparison that is total, transitive, and equal only on equal values;
-- on numbers, texts, options and pairs, reversed, and on values that are determined by others.
use Prim.Native.Nat.{ℕ, compare, Ordering}
use Prim.Native.Char.{code}
use Prim.Native.String
use Prim.Native.String.{String, compare as compare_text, then}
use mathlib.Core.Path.{◌≡◌, refl, sym, ap, ◌∙◌, subst}
use mathlib.Core.Logic.{◌⊎◌, inl, inr}
use mathlib.Core.Bool.{Bool, true, false}
use mathlib.Core.Option.{Option, none, some}
use native.Mathlib.Omega.{arith}
use text.Mathlib.TextEquality.{path_by_compare}

-- The opposite answer.
abbrev pub flip : Ordering → Ordering
flip Ordering.lt = Ordering.gt
flip Ordering.eq = Ordering.eq
flip Ordering.gt = Ordering.lt

abbrev pub is_le : Ordering → Bool
is_le Ordering.lt = true
is_le Ordering.eq = true
is_le Ordering.gt = false

pub record OrdLaws {ℓ} (A : Type ℓ) : Type ℓ where
  pub compare : A → A → Ordering
  pub compare_swap : (a b : A) → compare b a ≡ flip (compare a b)
  pub compare_trans :
      (a b c : A)
      → is_le (compare a b) ≡ true
      → is_le (compare b c) ≡ true
      → is_le (compare a c) ≡ true
  pub compare_eq : (a b : A) → compare a b ≡ Ordering.eq → a ≡ b

abbrev pub cmp {ℓ} : {A : Type ℓ} ⦃o : OrdLaws A⦄ → A → A → Ordering
cmp ⦃o⦄ = o.compare

pub Ordering-cases : (o : Ordering) → (o ≡ Ordering.lt) ⊎ ((o ≡ Ordering.eq) ⊎ (o ≡ Ordering.gt))
Ordering-cases Ordering.lt = inl refl
Ordering-cases Ordering.eq = inr (inl refl)
Ordering-cases Ordering.gt = inr (inr refl)

flip-then : (p q : Ordering) → then (flip p) (flip q) ≡ flip (then p q)
flip-then Ordering.lt q = refl
flip-then Ordering.eq q = refl
flip-then Ordering.gt q = refl

flip_self : (p : Ordering) → p ≡ flip p → p ≡ Ordering.eq
flip_self Ordering.lt h = absurd cc
flip_self Ordering.eq h = refl
flip_self Ordering.gt h = absurd cc

past : {o : Ordering} (p : Ordering) → o ≡ Ordering.eq → is_le (then o p) ≡ true → is_le p ≡ true
past {o = o} p same h = subst (λ x. is_le (then x p) ≡ true) same h

both_equal : (o p : Ordering) → then o p ≡ Ordering.eq → (o ≡ Ordering.eq) × (p ≡ Ordering.eq)
both_equal Ordering.lt p h = absurd cc
both_equal Ordering.eq p h = (refl, h)
both_equal Ordering.gt p h = absurd cc

module _ {ℓ} {A : Type ℓ} ⦃o : OrdLaws A⦄ where
  pub cmp_refl : (a : A) → cmp a a ≡ Ordering.eq
  cmp_refl a = flip_self (cmp a a) (o.compare_swap a a)

  before_trans :
      (a b c : A) → cmp a b ≡ Ordering.lt → is_le (cmp b c) ≡ true → cmp a c ≡ Ordering.lt
  before_trans a b c h k = elim (Ordering-cases (cmp a c)) [
    | inl less ↦ less
    | inr (inl same) ↦
        let a_is_c = o.compare_eq a c same in
        let back : cmp b c ≡ Ordering.gt =
          ap (λ x. cmp b x) (sym a_is_c) ∙ (o.compare_swap a b ∙ ap flip h) in
        absurd cc
    | inr (inr more) ↦ let le = o.compare_trans a b c (rw h refl) k in absurd cc
  ]

  -- The first difference decides, with transitive answers after it.
  pub then_trans :
      (a b c : A) (p q r : Ordering)
      → (is_le p ≡ true → is_le q ≡ true → is_le r ≡ true)
      → is_le (then (cmp a b) p) ≡ true
      → is_le (then (cmp b c) q) ≡ true
      → is_le (then (cmp a c) r) ≡ true
  then_trans a b c p q r tail h k = elim (Ordering-cases (cmp a b)) [
    | inl less ↦ elim (Ordering-cases (cmp b c)) [
      | inl less' ↦ rw (before_trans a b c less (rw less' refl)) refl
      | inr (inl same') ↦ rw (before_trans a b c less (rw same' refl)) refl
      | inr (inr more') ↦ absurd cc
    ]
    | inr (inl same) ↦
        let a_is_b = o.compare_eq a b same in
        elim (Ordering-cases (cmp b c)) [
          | inl less' ↦ rw (ap (λ x. cmp x c) a_is_b, less') refl
          | inr (inl same') ↦
              let there : cmp a c ≡ Ordering.eq = ap (λ x. cmp x c) a_is_b ∙ same' in
              rw there (tail (past p same h) (past q same' k))
          | inr (inr more') ↦ absurd cc
        ]
    | inr (inr more) ↦ absurd cc
  ]

pub nat_swap : (a b : ℕ) → compare b a ≡ flip (compare a b)
nat_swap a b = ground arith

pub nat_trans :
    (a b c : ℕ)
    → is_le (compare a b) ≡ true
    → is_le (compare b c) ≡ true
    → is_le (compare a c) ≡ true
nat_trans a b c h k = ground arith

pub nat_same : (a b : ℕ) → compare a b ≡ Ordering.eq → a ≡ b
nat_same a b h = ground arith

instance abbrev pub nat_ord : OrdLaws ℕ
nat_ord = record {
  compare = compare;
  compare_swap = nat_swap;
  compare_trans = nat_trans;
  compare_eq = nat_same;
}

pub text_swap : (s t : String) → compare_text t s ≡ flip (compare_text s t)
text_swap String.[] String.[] = refl
text_swap String.[] (String.◌∷◌ d t) =
    String.compare.cons-nil d t ∙ ap flip (sym (String.compare.nil-cons d t))
text_swap (String.◌∷◌ c s) String.[] =
    String.compare.nil-cons c s ∙ ap flip (sym (String.compare.cons-nil c s))
text_swap (String.◌∷◌ c s) (String.◌∷◌ d t) =
    String.compare.cons-cons d c t s
    ∙ (rw (nat_swap (code c) (code d), text_swap s t)
          (flip-then (compare (code c) (code d)) (compare_text s t))
        ∙ ap flip (sym (String.compare.cons-cons c d s t)))

pub text_trans :
    (s t u : String)
    → is_le (compare_text s t) ≡ true
    → is_le (compare_text t u) ≡ true
    → is_le (compare_text s u) ≡ true
text_trans String.[] t String.[] h k = refl
text_trans String.[] t (String.◌∷◌ e u) h k = rw (String.compare.nil-cons e u) refl
text_trans (String.◌∷◌ c s) String.[] u h k = let more = String.compare.cons-nil c s in absurd cc
text_trans (String.◌∷◌ c s) (String.◌∷◌ d t) String.[] h k =
    let more = String.compare.cons-nil d t in absurd cc
text_trans (String.◌∷◌ c s) (String.◌∷◌ d t) (String.◌∷◌ e u) h k =
    let h' = subst (λ o. is_le o ≡ true) (String.compare.cons-cons c d s t) h in
    let k' = subst (λ o. is_le o ≡ true) (String.compare.cons-cons d e t u) k in
    rw (String.compare.cons-cons c e s u) (
      then_trans (code c) (code d) (code e) (compare_text s t) (compare_text t u) (compare_text s u)
        (text_trans s t u) h' k')

instance abbrev pub text_ord : OrdLaws String
text_ord = record {
  compare = compare_text;
  compare_swap = text_swap;
  compare_trans = text_trans;
  compare_eq = path_by_compare;
}

module _ {ℓ} {A : Type ℓ} ⦃o : OrdLaws A⦄ where
  -- Nothing comes before something.
  abbrev pub compare_option : Option A → Option A → Ordering
  compare_option none none = Ordering.eq
  compare_option none (some b) = Ordering.lt
  compare_option (some a) none = Ordering.gt
  compare_option (some a) (some b) = cmp a b

  pub option_swap : (a b : Option A) → compare_option b a ≡ flip (compare_option a b)
  option_swap none none = refl
  option_swap none (some b) = refl
  option_swap (some a) none = refl
  option_swap (some a) (some b) = o.compare_swap a b

  pub option_trans :
      (a b c : Option A)
      → is_le (compare_option a b) ≡ true
      → is_le (compare_option b c) ≡ true
      → is_le (compare_option a c) ≡ true
  option_trans none b none h k = refl
  option_trans none b (some c) h k = refl
  option_trans (some a) none c h k = absurd cc
  option_trans (some a) (some b) none h k = absurd cc
  option_trans (some a) (some b) (some c) h k = o.compare_trans a b c h k

  pub option_same : (a b : Option A) → compare_option a b ≡ Ordering.eq → a ≡ b
  option_same none none h = refl
  option_same none (some b) h = absurd cc
  option_same (some a) none h = absurd cc
  option_same (some a) (some b) h = ap some (o.compare_eq a b h)

  instance abbrev pub option_ord : OrdLaws (Option A)
  option_ord = record {
    compare = compare_option;
    compare_swap = option_swap;
    compare_trans = option_trans;
    compare_eq = option_same;
  }

  -- `Reverse`.
  abbrev pub reverse_ord : OrdLaws A
  reverse_ord = record {
    compare = λ a b. cmp b a;
    compare_swap = λ a b. o.compare_swap b a;
    compare_trans = λ a b c h k. o.compare_trans c b a k h;
    compare_eq = λ a b h. sym (o.compare_eq b a h);
  }

module _ {ℓ κ} {A : Type ℓ} {B : Type κ} ⦃o : OrdLaws A⦄ ⦃p : OrdLaws B⦄ where
  abbrev pub compare_pair : A × B → A × B → Ordering
  compare_pair (a, x) (b, y) = then (cmp a b) (cmp x y)

  pub pair_swap : (v w : A × B) → compare_pair w v ≡ flip (compare_pair v w)
  pair_swap (a, x) (b, y) =
      rw (o.compare_swap a b, p.compare_swap x y) (flip-then (cmp a b) (cmp x y))

  pub pair_trans :
      (u v w : A × B)
      → is_le (compare_pair u v) ≡ true
      → is_le (compare_pair v w) ≡ true
      → is_le (compare_pair u w) ≡ true
  pair_trans (a, x) (b, y) (c, z) h k =
      then_trans a b c (cmp x y) (cmp y z) (cmp x z) (p.compare_trans x y z) h k

  pub pair_same : (v w : A × B) → compare_pair v w ≡ Ordering.eq → v ≡ w
  pair_same (a, x) (b, y) h =
      let same = both_equal (cmp a b) (cmp x y) h in
      let heads = o.compare_eq a b same.0 in
      let tails = p.compare_eq x y same.1 in λ i. (heads i, tails i)

  instance abbrev pub pair_ord : OrdLaws (A × B)
  pair_ord = record {
    compare = compare_pair;
    compare_swap = pair_swap;
    compare_trans = pair_trans;
    compare_eq = pair_same;
  }

-- The order of what values are determined by.
abbrev pub ord_by {ℓ κ} :
    {A : Type ℓ} {B : Type κ}
    → OrdLaws B
    → (key : A → B) → ((a b : A) → key a ≡ key b → a ≡ b)
    → OrdLaws A
ord_by o key same = record {
  compare = λ a b. o.compare (key a) (key b);
  compare_swap = λ a b. o.compare_swap (key a) (key b);
  compare_trans = λ a b c. o.compare_trans (key a) (key b) (key c);
  compare_eq = λ a b h. same a b (o.compare_eq (key a) (key b) h);
}
