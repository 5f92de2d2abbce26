-- ===== src/Discovery/Stability.antt =====
-- `ApiGroup::resources_by_stability` of kube-client/src/discovery/apigroup.rs: the most stable resource
-- of each kind, out of all versions.
use kube.Prelude.{
  ◌≡◌, refl, sym, ap, ◌∙◌, subst, true, false, inl, inr, Option, none, some, List, [], ◌∷◌, ◌++◌,
  String, ◌==◌, string_eq, string_iff, eq_sym, Result, ok, err, ◌>>=◌, All, if◌then◌else◌,
  Bool-cases, append_assoc, append-nil,
}
use kube.Prelude.HashMap.{lookup, put, lookup-put}
use kube.Prelude.Sort.{sort_by_key, sort-cons, sort-All, sort-IsFirst}
use kube.Prelude.Ord.{is_le}
use kube.Core.Version.Precedence.{compare_priority}
use kube.Core.Discovery.{ApiResource, ApiCapabilities}
use kube.Core.Version.{parse}
use kube.Core.Version.Order.{Priority, priority}
use kube.Discovery.{GroupVersionData}
use kube.Discovery.ApiGroup.{ApiGroup, descending}

abbrev pub Described : Type 0
Described = ApiResource × ApiCapabilities

-- The panic of an index into an empty vector.
pub data OutOfBounds : Type 0 where
  index_out_of_bounds : OutOfBounds

abbrev pub resource_key : Described → Priority
resource_key d = priority (parse d.0.version)

abbrev pub stable_first : List Described → List Described
stable_first v = sort_by_key ⦃o = descending⦄ resource_key v

abbrev pub all_resources : List GroupVersionData → List Described
all_resources [] = []
all_resources (gvd ∷ rest) = gvd.resources ++ all_resources rest

abbrev vec_or_new : Option (List Described) → List Described
vec_or_new none = []
vec_or_new (some v) = v

-- `entry`, `or_insert_with` and `push`.
abbrev push_entry : Described → List (String × List Described) → List (String × List Described)
push_entry d l = put d.0.kind (vec_or_new (lookup d.0.kind l) ++ (d ∷ [])) l

abbrev pub by_kind :
    List Described → List (String × List Described) → List (String × List Described)
by_kind [] l = l
by_kind (d ∷ ds) l = by_kind ds (push_entry d l)

abbrev first : List Described → Result OutOfBounds Described
first [] = err index_out_of_bounds
first (d ∷ ds) = ok d

abbrev firsts : List (String × List Described) → Result OutOfBounds (List Described)
firsts [] = ok []
firsts ((kind, v) ∷ l) = do d ← first (stable_first v); rest ← firsts l; ok (d ∷ rest)

-- The order of the values of a hash map is not determined; here it is that of the first resources.
unfoldable pub resources_by_stability : ApiGroup → Result OutOfBounds (List Described)
unfolding lookup put sort_by_key
resources_by_stability group = firsts (by_kind (all_resources group.group_data) [])

-- The resources of a kind.
abbrev pub of_kind : String → List Described → List Described
of_kind kind [] = []
of_kind kind (d ∷ ds) = let rest = of_kind kind ds in if d.0.kind == kind then d ∷ rest else rest

abbrev pub at_most_first : List Described → List Described
at_most_first [] = []
at_most_first (d ∷ ds) = d ∷ []

abbrev IsKind : String → Described → Type 0
IsKind kind d = d.0.kind ≡ kind

abbrev NonEmpty : List Described → Type 0
NonEmpty [] = ⊥
NonEmpty (d ∷ ds) = Unit

-- Each key once, with resources of its kind.
abbrev Grouped : List (String × List Described) → Type 0
Grouped [] = Unit
Grouped ((kind, v) ∷ l) = (All (IsKind kind) v × NonEmpty v) × ((lookup kind l ≡ none) × Grouped l)

put-Grouped :
    (kind : String) (v : List Described) (l : List (String × List Described))
    → All (IsKind kind) v
    → NonEmpty v
    → Grouped l
    → Grouped (put kind v l)
unfolding put lookup
put-Grouped kind v [] all some_there grouped = ((all, some_there), (refl, tt))
put-Grouped kind v ((j, w) ∷ l) all some_there grouped = elim (Bool-cases (j == kind)) [
  | inl same ↦
      let there = (string_iff j kind).0 same in
      rw same ((subst (λ k. All (IsKind k) v) (sym there) all, some_there), grouped.1)
  | inr other ↦
      let absent : lookup j (put kind v l) ≡ none =
        lookup-put kind j v l ∙ rw (eq_sym kind j, other) grouped.1.0 in
      rw other (grouped.0, (absent, put-Grouped kind v l all some_there grouped.1.1))
]

lookup-All :
    (kind : String) (l : List (String × List Described))
    → Grouped l
    → All (IsKind kind) (vec_or_new (lookup kind l))
unfolding lookup
lookup-All kind [] grouped = tt
lookup-All kind ((j, w) ∷ l) grouped = elim (Bool-cases (j == kind)) [
  | inl same ↦ rw same (subst (λ k. All (IsKind k) w) ((string_iff j kind).0 same) grouped.0.0)
  | inr other ↦ rw other (lookup-All kind l grouped.1.1)
]

All-append : (P : Described → Type 0) (v w : List Described) → All P v → All P w → All P (v ++ w)
All-append P [] w a b = b
All-append P (d ∷ v) w a b = (a.0, All-append P v w a.1 b)

NonEmpty-append : (v : List Described) (d : Described) → NonEmpty (v ++ (d ∷ []))
NonEmpty-append [] d = tt
NonEmpty-append (x ∷ v) d = tt

push_entry-Grouped :
    (d : Described) (l : List (String × List Described)) → Grouped l → Grouped (push_entry d l)
push_entry-Grouped d l grouped =
    let old = vec_or_new (lookup d.0.kind l) in
    put-Grouped d.0.kind (old ++ (d ∷ [])) l
      (All-append (IsKind d.0.kind) old (d ∷ []) (lookup-All d.0.kind l grouped) (refl, tt))
      (NonEmpty-append old d) grouped

by_kind-Grouped :
    (ds : List Described) (l : List (String × List Described)) → Grouped l → Grouped (by_kind ds l)
by_kind-Grouped [] l grouped = grouped
by_kind-Grouped (d ∷ ds) l grouped =
    by_kind-Grouped ds (push_entry d l) (push_entry-Grouped d l grouped)

push_entry-lookup :
    (kind : String) (d : Described) (l : List (String × List Described))
    → vec_or_new (lookup kind (push_entry d l))
      ≡ vec_or_new (lookup kind l) ++ of_kind kind (d ∷ [])
push_entry-lookup kind d l =
    ap vec_or_new (lookup-put d.0.kind kind (vec_or_new (lookup d.0.kind l) ++ (d ∷ [])) l)
    ∙ elim (Bool-cases (d.0.kind == kind)) [
      | inl same ↦
          rw same
            (ap (λ k. vec_or_new (lookup k l) ++ (d ∷ [])) ((string_iff d.0.kind kind).0 same))
      | inr other ↦ rw other (sym (append-nil _))
    ]

of_kind-cons :
    (kind : String) (d : Described) (ds : List Described)
    → of_kind kind (d ∷ []) ++ of_kind kind ds ≡ of_kind kind (d ∷ ds)
of_kind-cons kind d ds = elim (Bool-cases (d.0.kind == kind)) [
  | inl same ↦ rw same refl
  | inr other ↦ rw other refl
]

by_kind-lookup :
    (kind : String) (ds : List Described) (l : List (String × List Described))
    → vec_or_new (lookup kind (by_kind ds l)) ≡ vec_or_new (lookup kind l) ++ of_kind kind ds
by_kind-lookup kind [] l = sym (append-nil _)
by_kind-lookup kind (d ∷ ds) l =
    by_kind-lookup kind ds (push_entry d l)
    ∙ (ap (λ v. v ++ of_kind kind ds) (push_entry-lookup kind d l)
        ∙ (append_assoc (vec_or_new (lookup kind l)) (of_kind kind (d ∷ [])) (of_kind kind ds)
            ∙ ap (λ v. vec_or_new (lookup kind l) ++ v) (of_kind-cons kind d ds)))

-- The most stable resource, if there is one.
abbrev pub most_stable : List Described → List Described
most_stable v = at_most_first (stable_first v)

-- Out of each entry the most stable resource.
abbrev Firsts : List (String × List Described) → Result OutOfBounds (List Described) → Type 0
Firsts l r =
    (ds : List Described) × (r ≡ ok ds)
    × ((kind : String) → of_kind kind ds ≡ most_stable (vec_or_new (lookup kind l)))

none_stable : most_stable [] ≡ []
unfolding sort_by_key
none_stable = refl

firsts-cons :
    (j : String) (v : List Described) (l : List (String × List Described)) (z : Described)
    (zs : List Described)
    → stable_first v ≡ z ∷ zs
    → z.0.kind ≡ j
    → lookup j l ≡ none
    → Firsts l (firsts l)
    → Firsts ((j, v) ∷ l) (firsts ((j, v) ∷ l))
unfolding lookup
firsts-cons j v l z zs h is_j absent (ds, done, same) = (
  z ∷ ds,
  rw (h, done) refl,
  λ kind. elim (Bool-cases (j == kind)) [
    | inl found ↦
        let here : (z.0.kind == kind) ≡ true = ap (λ k. k == kind) is_j ∙ found in
        let gone : lookup kind l ≡ none =
          ap (λ k. lookup k l) (sym ((string_iff j kind).0 found)) ∙ absent in
        let rest : of_kind kind ds ≡ [] =
          same kind ∙ (ap (λ o. most_stable (vec_or_new o)) gone ∙ none_stable) in
        rw (here, found, h, rest) refl
    | inr other ↦
        let elsewhere : (z.0.kind == kind) ≡ false = ap (λ k. k == kind) is_j ∙ other in
        rw (elsewhere, other) (same kind)
  ],
)

firsts-Firsts : (l : List (String × List Described)) → Grouped l → Firsts l (firsts l)
unfolding lookup
firsts-Firsts [] grouped = ([], refl, λ kind. sym none_stable)
firsts-Firsts ((j, []) ∷ l) grouped = absurd grouped.0.1
firsts-Firsts ((j, d ∷ ds) ∷ l) grouped =
    let (z, zs, h) = sort-cons ⦃o = descending⦄ resource_key d ds in
    let kinds = sort-All ⦃o = descending⦄ (IsKind j) resource_key (d ∷ ds) grouped.0.0 in
    firsts-cons j (d ∷ ds) l z zs h (subst (All (IsKind j)) h kinds).0 grouped.1.0
      (firsts-Firsts l grouped.1.1)

-- The first version is above the second, or not below it.
abbrev IsAbove : Described → Described → Type 0
IsAbove z d = is_le (compare_priority (parse z.0.version) (parse d.0.version)) ≡ false

abbrev IsTop : Described → Described → Type 0
IsTop z d = is_le (compare_priority (parse d.0.version) (parse z.0.version)) ≡ true

-- Of some resources one is chosen, if there is one: its version is above those of the resources before
-- it, and none behind it has a version above its own.
abbrev pub MostStable : List Described → List Described → Type 0
MostStable [] ds = ds ≡ []
MostStable (d ∷ v) ds =
    (before : List Described) × (z : Described) × (behind : List Described) × (ds ≡ z ∷ [])
    × (d ∷ v ≡ before ++ (z ∷ behind))
    × All (IsAbove z) before
    × All (IsTop z) behind

most_stable-MostStable : (v : List Described) → MostStable v (most_stable v)
most_stable-MostStable [] = none_stable
most_stable-MostStable (d ∷ v) =
    let (z, zs, h, (before, behind, split, less, rest)) =
      sort-IsFirst ⦃o = descending⦄ resource_key d v in
    (before, z, behind, ap at_most_first h, split, less, rest)

-- The resources by stability are there without a panic. For every kind they hold one of the kind's
-- resources of all versions, or none if no version has the kind: the first of those with the highest
-- version, in the order of priority of versions.
pub resources_by_stability-Stable :
    (group : ApiGroup)
    → (ds : List Described) × (resources_by_stability group ≡ ok ds)
      × ((kind : String)
          → MostStable (of_kind kind (all_resources group.group_data)) (of_kind kind ds))
unfolding resources_by_stability
resources_by_stability-Stable group =
    let all = all_resources group.group_data in
    let (ds, done, same) = firsts-Firsts (by_kind all []) (by_kind-Grouped all [] tt) in
    (
      ds,
      done,
      λ kind.
          subst (MostStable (of_kind kind all))
            (sym (same kind ∙ ap most_stable (by_kind-lookup kind all [])))
            (most_stable-MostStable (of_kind kind all)),
    )
