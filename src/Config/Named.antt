-- ===== src/Config/Named.antt =====
-- Lists with names, as `append_new_named` of kube-client/src/config/file_config.rs merges them.
use kube.Prelude.{
  ◌≡◌, refl, sym, ap, ◌∙◌, ◌||◌, Option, none, some, List, [], ◌∷◌, ◌++◌, map, append_assoc,
  append-nil, String, ◌==◌, string_eq, if◌then◌else◌, find, is_some, arith,
}
use kube.Prelude.HashSet.{contains, contains_cong}
use kube.Config.Merge.{or, new_named, append_new_named}

contains-append :
    (xs ys : List String) (n : String) → contains (xs ++ ys) n ≡ (contains xs n || contains ys n)
unfolding contains
contains-append [] ys n = refl
contains-append (x ∷ xs) ys n = ground (arith, contains-append xs ys n)

pub or_assoc {ℓ} : {A : Type ℓ} (a b c : Option A) → or (or a b) c ≡ or a (or b c)
or_assoc none b c = refl
or_assoc (some a) b c = refl

pub or_none {ℓ} : {A : Type ℓ} (a : Option A) → or a none ≡ a
or_none none = refl
or_none (some a) = refl

module _ {T : Type 0} (f : T → String) where
  -- The first value of a name.
  abbrev pub named : String → List T → Option T
  named n xs = find (λ x. f x == n) xs

  map-append : (xs ys : List T) → map f (xs ++ ys) ≡ map f xs ++ map f ys
  map-append [] ys = refl
  map-append (x ∷ xs) ys = ap (λ l. f x ∷ l) (map-append xs ys)

  named-append : (n : String) (xs ys : List T) → named n (xs ++ ys) ≡ or (named n xs) (named n ys)
  unfolding find
  named-append n [] ys = refl
  named-append n (x ∷ xs) ys = ground (arith, named-append n xs ys)

  contains-named : (n : String) (xs : List T) → contains (map f xs) n ≡ is_some (named n xs)
  unfolding find contains
  contains-named n [] = refl
  contains-named n (x ∷ xs) = ground (arith, contains-named n xs)

  named-new_named :
      (existing : List String) (n : String) (xs : List T)
      → named n (new_named f existing xs) ≡ (if contains existing n then none else named n xs)
  unfolding find contains
  named-new_named existing n [] = ground arith
  named-new_named existing n (x ∷ xs) =
      ground (arith, contains_cong (f x) n existing, named-new_named existing n xs)

  or-unless : (a b : Option T) → or a (if is_some a then none else b) ≡ or a b
  or-unless none b = refl
  or-unless (some a) b = refl

  -- The first list to hold a name wins.
  pub named-append_new_named :
      (n : String) (base next : List T)
      → named n (append_new_named f base next) ≡ or (named n base) (named n next)
  unfolding append_new_named
  named-append_new_named n base next = simp (
    named-append n base (new_named f (map f base) next),
    named-new_named (map f base) n next,
    contains-named n base,
    or-unless (named n base) (named n next),
  )

  new_named-append :
      (existing : List String) (xs ys : List T)
      → new_named f existing (xs ++ ys) ≡ new_named f existing xs ++ new_named f existing ys
  unfolding contains
  new_named-append existing [] ys = refl
  new_named-append existing (x ∷ xs) ys = ground (arith, new_named-append existing xs ys)

  new_named-new_named :
      (outer inner : List String) (xs : List T)
      → new_named f outer (new_named f inner xs) ≡ new_named f (outer ++ inner) xs
  unfolding contains
  new_named-new_named outer inner [] = refl
  new_named-new_named outer inner (x ∷ xs) =
      ground (arith, contains-append outer inner (f x), new_named-new_named outer inner xs)

  new_named_cong :
      (es gs : List String) (xs : List T)
      → ((n : String) → contains es n ≡ contains gs n)
      → new_named f es xs ≡ new_named f gs xs
  unfolding contains
  new_named_cong es gs [] h = refl
  new_named_cong es gs (x ∷ xs) h = simp (h (f x), new_named_cong es gs xs h)

  is_some-or : (a b : Option T) → is_some (or a b) ≡ (is_some a || is_some b)
  is_some-or none b = refl
  is_some-or (some a) b = refl

  contains-append_new_named :
      (n : String) (base next : List T)
      → contains (map f (append_new_named f base next)) n ≡ contains (map f base ++ map f next) n
  contains-append_new_named n base next = simp (
    contains-named n (append_new_named f base next),
    named-append_new_named n base next,
    is_some-or (named n base) (named n next),
    contains-append (map f base) (map f next) n,
    contains-named n base,
    contains-named n next,
  )

  -- Three lists are merged to the same list from the left and from the right.
  pub append_new_named_assoc :
      (a b c : List T)
      → append_new_named f (append_new_named f a b) c
        ≡ append_new_named f a (append_new_named f b c)
  unfolding append_new_named
  append_new_named_assoc a b c =
      append_assoc a (new_named f (map f a) b) (new_named f (map f (append_new_named f a b)) c)
      ∙ ap (λ l. a ++ l)
          (ap (λ l. new_named f (map f a) b ++ l)
              (new_named_cong (map f (append_new_named f a b)) (map f a ++ map f b) c
                  (λ n. contains-append_new_named n a b)
                ∙ sym (new_named-new_named (map f a) (map f b) c))
            ∙ sym (new_named-append (map f a) b (new_named f (map f b) c)))

  pub append_new_named_none : (xs : List T) → append_new_named f [] xs ≡ xs
  unfolding append_new_named contains
  append_new_named_none [] = refl
  append_new_named_none (x ∷ xs) = ap (λ l. x ∷ l) (append_new_named_none xs)

  pub append_new_named-none : (xs : List T) → append_new_named f xs [] ≡ xs
  unfolding append_new_named contains
  append_new_named-none xs = append-nil xs
