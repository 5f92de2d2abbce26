-- ===== src/Discovery/Latest.antt =====
-- The versions of a discovered group (kube-client/src/discovery/apigroup.rs), and the one that is chosen.
use kube.Prelude.{
  ◌≡◌, refl, sym, ap, ◌∙◌, ℕ, true, ◌⊎◌, inl, inr, Option, none, some, List, [], ◌∷◌, String, ◌==◌,
  string_eq, Result, ok, err, ◌>>=◌, All, subst,
}
use kube.Prelude.Ord.{cmp_refl, is_le}
use kube.Prelude.Sort.{sort_by_key, Below, IsSorted, sort-IsSorted, sort-cons, count, count-sort}
use kube.Core.Version.{parse}
use kube.Core.Version.Order.{priority, priority_ord}
use kube.Core.Version.Precedence.{compare_priority}
use kube.Watcher.{ClientErr}
use kube.Discovery.{ServedList, discovery, empty_api_group, GroupVersionData}
use kube.Discovery.Totality.{new-Total}
use kube.Discovery.ApiGroup.{
  GroupVersionForDiscovery, ServedGroup, QueryError, client, parse_failed, ApiGroup, descending,
  version_key, sort_versions, version_name, query_versions, query_listed, query_apis, names,
  versions, preferred_or, preferred_version_or_latest,
}

abbrev pub listed : List GroupVersionForDiscovery → List String
listed [] = []
listed (v ∷ vs) = v.version ∷ listed vs

abbrev pub occurrences : String → List String → ℕ
occurrences text vs = count (λ v. v == text) vs

-- The second version is not above the first.
abbrev pub AtMost : String → String → Type 0
AtMost v w = is_le (compare_priority (parse w) (parse v)) ≡ true

abbrev pub Chosen : Option GroupVersionForDiscovery → String → List String → Type 0
Chosen (some p) v vs = v ≡ p.version
Chosen none v vs = All (AtMost v) vs

-- Each version is not below those that come after it.
abbrev pub IsDescending : List String → Type 0
IsDescending [] = Unit
IsDescending (v ∷ vs) = All (AtMost v) vs × IsDescending vs

abbrev pub Served :
    Option GroupVersionForDiscovery → List GroupVersionForDiscovery → ApiGroup → Type 0
Served preferred vs group =
    ((v : String) × (preferred_version_or_latest group ≡ ok v)
      × Chosen preferred v (versions group))
    × IsDescending (versions group)
    × ((text : String) → occurrences text (versions group) ≡ occurrences text (listed vs))

Below-AtMost :
    (x : GroupVersionData) (l : List GroupVersionData)
    → All (Below ⦃o = descending⦄ version_key x) l
    → All (AtMost x.version) (names l)
Below-AtMost x [] all = tt
Below-AtMost x (y ∷ l) all = (all.0, Below-AtMost x l all.1)

sorted-IsDescending :
    (l : List GroupVersionData) → IsSorted ⦃o = descending⦄ version_key l → IsDescending (names l)
sorted-IsDescending [] sorted = tt
sorted-IsDescending (x ∷ l) sorted = (Below-AtMost x l sorted.0, sorted-IsDescending l sorted.1)

count-names :
    (text : String) (l : List GroupVersionData)
    → occurrences text (names l) ≡ count (λ gvd. gvd.version == text) l
count-names text [] = refl
count-names text (x ∷ l) = rw (count-names text l) refl

abbrev by_priority : List GroupVersionData → List GroupVersionData
by_priority l = sort_by_key ⦃o = descending⦄ version_key l

occurrences-by_priority :
    (text : String) (l : List GroupVersionData)
    → occurrences text (names (by_priority l)) ≡ occurrences text (names l)
occurrences-by_priority text l =
    count-names text (by_priority l)
    ∙ (count-sort ⦃o = descending⦄ (λ gvd. gvd.version == text) version_key l
        ∙ sym (count-names text l))

AtMost-refl : (v : String) → AtMost v v
AtMost-refl v = rw (cmp_refl ⦃o = priority_ord⦄ (priority (parse v))) refl

abbrev Picked : Option GroupVersionForDiscovery → List String → Type 0
Picked preferred vs =
    (v : String) × (preferred_or (version_name preferred) vs ≡ ok v) × Chosen preferred v vs

picked :
    (preferred : Option GroupVersionForDiscovery) (x : GroupVersionData) (l : List GroupVersionData)
    → Picked preferred (names (by_priority (x ∷ l)))
picked (some p) x l = (p.version, refl, refl)
picked none x l =
    let (z, zs, h) = sort-cons ⦃o = descending⦄ version_key x l in
    let whole = sort-IsSorted ⦃o = descending⦄ version_key (x ∷ l) in
    let first : All (Below ⦃o = descending⦄ version_key z) zs =
      (subst (IsSorted ⦃o = descending⦄ version_key) h whole).0 in
    rw h (z.version, refl, (AtMost-refl z.version, Below-AtMost z zs first))

Result-cases : {E A : Type 0} (r : Result E A) → ((a : A) × (r ≡ ok a)) ⊎ ((e : E) × (r ≡ err e))
Result-cases (ok a) = inl (a, refl)
Result-cases (err e) = inr (e, refl)

module _ (list_core list_group : String → Result ClientErr ServedList) where
  -- Some call of the client failed, with this error.
  abbrev pub FailedCall : ClientErr → List GroupVersionForDiscovery → Type 0
  FailedCall e [] = ⊥
  FailedCall e (v ∷ vs) = (list_group v.group_version ≡ err e) ⊎ FailedCall e vs

  abbrev Queried :
      List GroupVersionForDiscovery → Result QueryError (List GroupVersionData) → Type 0
  Queried vs (ok l) = names l ≡ listed vs
  Queried vs (err (client e)) = FailedCall e vs
  Queried vs (err (parse_failed e)) = ⊥

  later-Queried :
      (v : GroupVersionForDiscovery) (vs : List GroupVersionForDiscovery) (gvd : GroupVersionData)
      (r : Result QueryError (List GroupVersionData))
      → gvd.version ≡ v.version
      → Queried vs r
      → Queried (v ∷ vs) (r >>= λ later. ok (gvd ∷ later))
  later-Queried v vs gvd (ok l) same h = rw (same, h) refl
  later-Queried v vs gvd (err (client e)) same h = inr h
  later-Queried v vs gvd (err (parse_failed e)) same h = h

  query_versions-Queried :
      (vs : List GroupVersionForDiscovery) → Queried vs (query_versions list_core list_group vs)
  query_versions-Queried [] = refl
  query_versions-Queried (v ∷ vs) = elim (Result-cases (list_group v.group_version)) [
    | inl (resources, h) ↦
        let (gvd, made, same, described) = new-Total v.version resources in
        rw (h, made) (later-Queried v vs gvd _ same (query_versions-Queried vs))
    | inr (e, h) ↦ rw h (inl h)
  ]

  abbrev pub Answered :
      String
      → Option GroupVersionForDiscovery
      → List GroupVersionForDiscovery
      → Result QueryError ApiGroup
      → Type 0
  Answered name preferred vs (ok group) = Served preferred vs group
  Answered name preferred vs (err (client e)) = FailedCall e vs
  Answered name preferred vs (err (parse_failed e)) =
      (vs ≡ []) × (e ≡ discovery (empty_api_group name))

  sorted-Answered :
      (name : String) (preferred : Option GroupVersionForDiscovery) (v : GroupVersionForDiscovery)
      (vs : List GroupVersionForDiscovery) (r : Result QueryError (List GroupVersionData))
      → Queried (v ∷ vs) r
      → Answered name preferred (v ∷ vs) (
          r >>= λ l. ok (
            sort_versions
              (record { name = name; group_data = l; preferred = version_name preferred })))
  unfolding sort_versions preferred_version_or_latest versions
  sorted-Answered name preferred v vs (ok []) h = absurd cc
  sorted-Answered name preferred v vs (ok (x ∷ l)) h = (
    picked preferred x l,
    sorted-IsDescending (by_priority (x ∷ l)) (sort-IsSorted ⦃o = descending⦄ version_key (x ∷ l)),
    λ text. occurrences-by_priority text (x ∷ l) ∙ ap (occurrences text) h,
  )
  sorted-Answered name preferred v vs (err (client e)) h = h
  sorted-Answered name preferred v vs (err (parse_failed e)) h = absurd h

  listed-Answered :
      (name : String) (preferred : Option GroupVersionForDiscovery)
      (vs : List GroupVersionForDiscovery)
      → Answered name preferred vs (query_listed list_core list_group name preferred vs)
  listed-Answered name preferred [] = (refl, refl)
  listed-Answered name preferred (v ∷ vs) =
      sorted-Answered name preferred v vs (query_versions list_core list_group (v ∷ vs))
        (query_versions-Queried (v ∷ vs))

  -- A query of a group fails only with the error of a failed call, or if the group has no version. Else
  -- the group has the versions that were listed, as often, from the highest priority to the lowest;
  -- the choice of a version does not panic, and gives the preferred version, or, if there is none, one
  -- that no other is above.
  pub query_apis-Answered :
      (g : ServedGroup)
      → Answered g.name g.preferred_version g.versions (query_apis list_core list_group g)
  unfolding query_apis
  query_apis-Answered g = listed-Answered g.name g.preferred_version g.versions
