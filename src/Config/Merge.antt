-- ===== src/Config/Merge.antt =====
-- `Kubeconfig::merge` of kube-client/src/config/file_config.rs.
use kube.Prelude.{
  Bool, not, ◌&&◌, Option, none, some, List, [], ◌∷◌, ◌++◌, map, String, ◌==◌, string_eq, option_eq,
  if◌then◌else◌, is_some, Result, ok, err,
}
use kube.Prelude.HashSet.{contains}
use kube.Config.Kubeconfig.{Kubeconfig, NamedCluster, NamedAuthInfo, NamedContext}
use kube.Config.Outside.{Outside, KubeconfigError, kind_mismatch, api_version_mismatch}

abbrev pub or {ℓ} : {A : Type ℓ} → Option A → Option A → Option A
or none b = b
or (some a) b = some a

module _ {T : Type 0} (f : T → String) where
  abbrev pub new_named : List String → List T → List T
  unfolding contains
  new_named existing [] = []
  new_named existing (x ∷ next) =
      let rest = new_named existing next in if contains existing (f x) then rest else x ∷ rest

  unfoldable pub append_new_named : List T → List T → List T
  append_new_named base next = base ++ new_named (map f base) next

-- Both are set, and they are not the same.
abbrev pub mismatch : Option String → Option String → Bool
mismatch a b = is_some a && is_some b && not (a == b)

-- What `merge` leaves in `self`.
unfoldable pub joined : {V : Type 0} → Kubeconfig V → Kubeconfig V → Kubeconfig V
unfolding append_new_named
joined {V = V} self next = record {
  preferences = or self.preferences next.preferences;
  clusters = append_new_named (λ (x : NamedCluster V). x.name) self.clusters next.clusters;
  auth_infos = append_new_named (λ (x : NamedAuthInfo). x.name) self.auth_infos next.auth_infos;
  contexts = append_new_named (λ (x : NamedContext V). x.name) self.contexts next.contexts;
  current_context = or self.current_context next.current_context;
  extensions = or self.extensions next.extensions;
  kind = or self.kind next.kind;
  api_version = or self.api_version next.api_version;
}

module _ (o : Outside) where
  unfoldable pub merge :
      Kubeconfig o.Json → Kubeconfig o.Json → Result (KubeconfigError o) (Kubeconfig o.Json)
  unfolding joined
  merge self next =
      if mismatch self.kind next.kind
      then err kind_mismatch
      else if mismatch self.api_version next.api_version
      then err api_version_mismatch
      else ok (joined self next)
