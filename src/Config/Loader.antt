-- ===== src/Config/Loader.antt =====
-- kube-client/src/config/file_loader.rs: the context, cluster and user of a kubeconfig.
use kube.Prelude.{Option, none, some, String, ◌==◌, string_eq, find, Result, ok, err, ◌>>=◌}
use kube.Config.Kubeconfig.{
  Kubeconfig, Cluster, AuthInfo, Context, NamedCluster, NamedAuthInfo, NamedContext,
}
use kube.Config.Outside.{
  Outside, KubeconfigError, current_context_not_set, load_context, load_cluster_of_context,
  find_user,
}
use kube.Config.Merge.{or}
use kube.Config.Files.{read}

pub record KubeConfigOptions : Type 0 where
  pub context : Option String
  pub cluster : Option String
  pub user : Option String

pub record ConfigLoader (V : Type 0) : Type 0 where
  pub current_context : Context V
  pub cluster : Cluster V
  pub user : AuthInfo

abbrev pub ok_or {ℓ} : {A : Type ℓ} {E : Type 0} → E → Option A → Result E A
ok_or e none = err e
ok_or e (some a) = ok a

abbrev pub unwrap_or {ℓ} : {A : Type ℓ} → A → Option A → A
unwrap_or a none = a
unwrap_or a (some b) = b

abbrev pub user_in : Option NamedAuthInfo → Option AuthInfo
user_in none = none
user_in (some n) = n.auth_info

module _ {V : Type 0} where
  abbrev pub context_in : Option (NamedContext V) → Option (Context V)
  context_in none = none
  context_in (some n) = n.context

  abbrev pub cluster_in : Option (NamedCluster V) → Option (Cluster V)
  cluster_in none = none
  cluster_in (some n) = n.cluster

  abbrev pub context_of : String → Kubeconfig V → Option (Context V)
  unfolding find
  context_of name config =
      context_in (find (λ (n : NamedContext V). n.name == name) config.contexts)

  abbrev pub cluster_of : String → Kubeconfig V → Option (Cluster V)
  unfolding find
  cluster_of name config =
      cluster_in (find (λ (n : NamedCluster V). n.name == name) config.clusters)

  abbrev pub user_of : String → Kubeconfig V → Option AuthInfo
  unfolding find
  user_of name config = user_in (find (λ (n : NamedAuthInfo). n.name == name) config.auth_infos)

module _ (o : Outside) where
  unfoldable pub load :
      Kubeconfig o.Json
      → Option String
      → Option String
      → Option String
      → Result (KubeconfigError o) (ConfigLoader o.Json)
  load config context cluster user = do
    context_name ← ok_or current_context_not_set (or context config.current_context)
    current_context ← ok_or (load_context context_name) (context_of context_name config)
    let cluster_name = unwrap_or current_context.cluster cluster
    found ← ok_or (load_cluster_of_context cluster_name) (cluster_of cluster_name config)
    let user_name = unwrap_or current_context.user user
    auth ← ok_or (find_user user_name) (user_of user_name config)
    ok (record { current_context = current_context; cluster = found; user = auth })

  unfoldable pub new_from_kubeconfig :
      Kubeconfig o.Json → KubeConfigOptions → Result (KubeconfigError o) (ConfigLoader o.Json)
  unfolding load
  new_from_kubeconfig config options = load config options.context options.cluster options.user

  unfoldable pub new_from_options :
      KubeConfigOptions → Result (KubeconfigError o) (ConfigLoader o.Json)
  unfolding load read
  new_from_options options = do
    config ← read o
    load config options.context options.cluster options.user
