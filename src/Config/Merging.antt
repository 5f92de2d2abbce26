-- ===== src/Config/Merging.antt =====
-- What `Kubeconfig::merge` of kube-client/src/config/file_config.rs gives, and in which groups files
-- may be merged.
use kube.Prelude.{
  ◌≡◌, ◌≢◌, refl, ap, Bool, true, false, not, ◌&&◌, Option, none, some, String, string_eq,
  option_eq, eq_cong, string_iff, if◌then◌else◌, Result, ok, err, ◌>>=◌, inl, inr, Bool-cases,
  arith,
}
use kube.Config.Kubeconfig.{Kubeconfig, NamedCluster, NamedAuthInfo, NamedContext, no_kubeconfig}
use kube.Config.Outside.{Outside, KubeconfigError, kind_mismatch, api_version_mismatch}
use kube.Config.Merge.{or, mismatch, joined, merge}
use kube.Config.Named.{
  named, or_assoc, or_none, named-append_new_named, append_new_named_assoc, append_new_named_none,
  append_new_named-none,
}

-- Both are set, to different texts.
abbrev pub Clash : Option String → Option String → Type 0
Clash a b = (j k : String) × (a ≡ some j) × (b ≡ some k) × (j ≢ k)

mismatch-Clash : (a b : Option String) → mismatch a b ≡ true → Clash a b
mismatch-Clash none b h = absurd cc
mismatch-Clash (some j) none h = absurd cc
mismatch-Clash (some j) (some k) h = (j, k, refl, refl, λ e. ground (arith, string_iff j k))

mismatch-agrees : (a b : Option String) → mismatch a b ≡ false → ¬ Clash a b
mismatch-agrees a b h (j, k, p, q, n) = n ((string_iff j k).0 (ground arith))

abbrev pub answer {ℓ κ} : {E : Type κ} {A : Type ℓ} → Result E A → Option A
answer (ok a) = some a
answer (err e) = none

abbrev pub user_name : NamedAuthInfo → String
user_name x = x.name

module _ {V : Type 0} where
  abbrev pub cluster_name : NamedCluster V → String
  cluster_name x = x.name

  abbrev pub context_name : NamedContext V → String
  context_name x = x.name

  -- What the first kubeconfig sets is kept, the rest is from the second one.
  abbrev pub FirstWins : Kubeconfig V → Kubeconfig V → Kubeconfig V → Type 0
  FirstWins a b c =
      (c.kind ≡ or a.kind b.kind)
      × (c.api_version ≡ or a.api_version b.api_version)
      × (c.preferences ≡ or a.preferences b.preferences)
      × (c.current_context ≡ or a.current_context b.current_context)
      × (c.extensions ≡ or a.extensions b.extensions)
      × ((n : String)
          → named cluster_name n c.clusters
            ≡ or (named cluster_name n a.clusters) (named cluster_name n b.clusters))
      × ((n : String)
          → named user_name n c.auth_infos
            ≡ or (named user_name n a.auth_infos) (named user_name n b.auth_infos))
      × ((n : String)
          → named context_name n c.contexts
            ≡ or (named context_name n a.contexts) (named context_name n b.contexts))

  joined-FirstWins : (a b : Kubeconfig V) → FirstWins a b (joined a b)
  unfolding joined
  joined-FirstWins a b = (
    refl,
    refl,
    refl,
    refl,
    refl,
    λ n. named-append_new_named cluster_name n a.clusters b.clusters,
    λ n. named-append_new_named user_name n a.auth_infos b.auth_infos,
    λ n. named-append_new_named context_name n a.contexts b.contexts,
  )

  joined_assoc : (a b c : Kubeconfig V) → joined (joined a b) c ≡ joined a (joined b c)
  unfolding joined
  joined_assoc a b c = simp (
    or_assoc a.kind b.kind c.kind,
    or_assoc a.api_version b.api_version c.api_version,
    or_assoc a.preferences b.preferences c.preferences,
    or_assoc a.current_context b.current_context c.current_context,
    or_assoc a.extensions b.extensions c.extensions,
    append_new_named_assoc cluster_name a.clusters b.clusters c.clusters,
    append_new_named_assoc user_name a.auth_infos b.auth_infos c.auth_infos,
    append_new_named_assoc context_name a.contexts b.contexts c.contexts,
  )

  joined_none : (a : Kubeconfig V) → joined no_kubeconfig a ≡ a
  unfolding joined
  joined_none a = simp (
    append_new_named_none cluster_name a.clusters,
    append_new_named_none user_name a.auth_infos,
    append_new_named_none context_name a.contexts,
  )

  joined-none : (a : Kubeconfig V) → joined a no_kubeconfig ≡ a
  unfolding joined
  joined-none a = simp (
    or_none a.kind,
    or_none a.api_version,
    or_none a.preferences,
    or_none a.current_context,
    or_none a.extensions,
    append_new_named-none cluster_name a.clusters,
    append_new_named-none user_name a.auth_infos,
    append_new_named-none context_name a.contexts,
  )

mismatch-none : (a : Option String) → mismatch a none ≡ false
mismatch-none none = refl
mismatch-none (some x) = refl

mismatch_assoc :
    (a b c : Option String)
    → (not (mismatch a b) && not (mismatch (or a b) c))
      ≡ (not (mismatch b c) && not (mismatch a (or b c)))
mismatch_assoc none b c = ground arith
mismatch_assoc (some i) none c = refl
mismatch_assoc (some i) (some j) none = ground arith
mismatch_assoc (some i) (some j) (some k) = ground (arith, eq_cong i j k)

module _ (o : Outside) where
  abbrev pub Merged :
      Kubeconfig o.Json
      → Kubeconfig o.Json
      → Result (KubeconfigError o) (Kubeconfig o.Json)
      → Type 0
  Merged a b (ok c) = ¬ Clash a.kind b.kind × ¬ Clash a.api_version b.api_version × FirstWins a b c
  Merged a b (err kind_mismatch) = Clash a.kind b.kind
  Merged a b (err api_version_mismatch) = ¬ Clash a.kind b.kind × Clash a.api_version b.api_version
  Merged a b (err _) = ⊥

  -- A merge fails exactly if the kinds or else the apiVersions of both are set and differ. Else, all that
  -- the first kubeconfig sets is kept, and the rest is from the second one: every name of a cluster, a
  -- user or a context means what it means in the first that has it.
  pub merge-Merged : (a b : Kubeconfig o.Json) → Merged a b (merge o a b)
  unfolding merge
  merge-Merged a b = elim (Bool-cases (mismatch a.kind b.kind)) [
    | inl k ↦ rw k (mismatch-Clash a.kind b.kind k)
    | inr k ↦ elim (Bool-cases (mismatch a.api_version b.api_version)) [
      | inl v ↦
          rw (k, v) (mismatch-agrees a.kind b.kind k, mismatch-Clash a.api_version b.api_version v)
      | inr v ↦
          rw (k, v)
            (
              mismatch-agrees a.kind b.kind k,
              mismatch-agrees a.api_version b.api_version v,
              joined-FirstWins a b,
            )
    ]
  ]

  abbrev fitting : Kubeconfig o.Json → Kubeconfig o.Json → Bool
  fitting a b = not (mismatch a.kind b.kind) && not (mismatch a.api_version b.api_version)

  answer-merge :
      (a b : Kubeconfig o.Json)
      → answer (merge o a b) ≡ (if fitting a b then some (joined a b) else none)
  unfolding merge
  answer-merge a b = ground arith

  -- Three kubeconfigs give the same, or fail, merged from the left and from the right.
  pub merge_assoc :
      (a b c : Kubeconfig o.Json)
      → answer (merge o a b >>= λ ab. merge o ab c) ≡ answer (merge o b c >>= λ bc. merge o a bc)
  unfolding merge joined
  merge_assoc a b c = ground (
    arith,
    mismatch_assoc a.kind b.kind c.kind,
    mismatch_assoc a.api_version b.api_version c.api_version,
    joined_assoc a b c,
  )

  pub merge_none : (a : Kubeconfig o.Json) → merge o no_kubeconfig a ≡ ok a
  unfolding merge
  merge_none a = ap ok (joined_none a)

  pub merge-none : (a : Kubeconfig o.Json) → merge o a no_kubeconfig ≡ ok a
  unfolding merge
  merge-none a = rw (mismatch-none a.kind, mismatch-none a.api_version) (ap ok (joined-none a))
