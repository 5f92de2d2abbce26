-- ===== src/Config/Loading.antt =====
-- What kube-client/src/config/file_loader.rs finds is in the first kubeconfig that has it.
use kube.Prelude.{
  ◌≡◌, refl, ap, subst, ◌∙◌, Option, none, some, String, string_eq, find, Result, ok, ◌>>=◌,
}
use kube.Config.Kubeconfig.{Kubeconfig}
use kube.Config.Outside.{Outside}
use kube.Config.Merge.{or, merge}
use kube.Config.Named.{named}
use kube.Config.Merging.{FirstWins, Merged, merge-Merged, cluster_name, user_name, context_name}
use kube.Config.Loader.{
  ok_or, unwrap_or, context_in, cluster_in, user_in, context_of, cluster_of, user_of, load,
}

-- What is found in the first place is found.
abbrev Kept {ℓ} : {A : Type ℓ} → Option A → Option A → Type ℓ
Kept {A = A} a c = (x : A) → a ≡ some x → c ≡ some x

-- A success stays the same.
abbrev pub Stays {ℓ κ} : {A : Type ℓ} {E : Type κ} → Result E A → Result E A → Type (ℓ ⊔ κ)
Stays {A = A} r s = (x : A) → r ≡ ok x → s ≡ ok x

or-Kept {ℓ} : {A : Type ℓ} (a b c : Option A) → c ≡ or a b → Kept a c
or-Kept a b c h x e = h ∙ ap (λ o. or o b) e

then-Kept {ℓ κ} :
    {A : Type ℓ} {B : Type κ} (f : Option A → Option B)
    → f none ≡ none
    → (a c : Option A) → Kept a c
    → Kept (f a) (f c)
then-Kept f h none c k x e = absurd cc
then-Kept f h (some a) c k x e = ap f (k a refl) ∙ e

-- What goes on with what is found.
found-Stays {ℓ κ} :
    {A : Type ℓ} {B : Type κ} {E : Type 0}
    → {a c : Option A} {f g : A → Result E B} (e : E) → Kept a c
    → ((x : A) → Stays (f x) (g x))
    → Stays (ok_or e a >>= f) (ok_or e c >>= g)
found-Stays {a = none} e k h x p = absurd cc
found-Stays {a = some a} {g = g} e k h x p = ap (λ r. ok_or e r >>= g) (k a refl) ∙ h a x p

first-Kept : (first a b c : Option String) → c ≡ or a b → Kept (or first a) (or first c)
first-Kept none a b c h x e = or-Kept a b c h x e
first-Kept (some n) a b c h x e = e

module _ (o : Outside) (a b c : Kubeconfig o.Json) (first : FirstWins a b c) where
  context_of-Kept : (n : String) → Kept (context_of n a) (context_of n c)
  unfolding find
  context_of-Kept n =
      then-Kept context_in refl _ _
        (or-Kept (named context_name n a.contexts) (named context_name n b.contexts) _ (first.7 n))

  cluster_of-Kept : (n : String) → Kept (cluster_of n a) (cluster_of n c)
  unfolding find
  cluster_of-Kept n =
      then-Kept cluster_in refl _ _
        (or-Kept (named cluster_name n a.clusters) (named cluster_name n b.clusters) _ (first.5 n))

  user_of-Kept : (n : String) → Kept (user_of n a) (user_of n c)
  unfolding find
  user_of-Kept n =
      then-Kept user_in refl _ _
        (or-Kept (named user_name n a.auth_infos) (named user_name n b.auth_infos) _ (first.6 n))

  load-FirstWins :
      (context cluster user : Option String)
      → Stays (load o a context cluster user) (load o c context cluster user)
  unfolding load find
  load-FirstWins context cluster user =
      found-Stays _
        (first-Kept context a.current_context b.current_context c.current_context first.3)
        λ name. found-Stays _ (context_of-Kept name) λ found.
          found-Stays _ (cluster_of-Kept (unwrap_or found.cluster cluster))
            λ k. found-Stays _ (user_of-Kept (unwrap_or found.user user)) λ auth x e. e

module _ (o : Outside) where
  -- A loader that a kubeconfig gives, for any context, cluster and user, is the same if other
  -- kubeconfigs are merged after it.
  pub load-merge :
      (a b c : Kubeconfig o.Json) (context cluster user : Option String)
      → merge o a b ≡ ok c
      → Stays (load o a context cluster user) (load o c context cluster user)
  load-merge a b c context cluster user h =
      load-FirstWins o a b c (subst (Merged o a b) h (merge-Merged o a b)).2 context cluster user
