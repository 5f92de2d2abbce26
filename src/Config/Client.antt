-- ===== src/Config/Client.antt =====
-- `Config` of kube-client/src/config/mod.rs. Durations are in seconds, and what
-- is only logged is left out.
use kube.Prelude.{
  ℕ, Bool, false, Option, none, some, List, [], ◌∷◌, String, nat_beq, if◌then◌else◌, Result, ok,
  err, ◌>>=◌,
}
use Prim.Native.Char.{Char, code}
use kube.Config.Kubeconfig.{Kubeconfig, AuthInfo, no_auth_info}
use kube.Config.Outside.{Outside, KubeconfigError, missing_cluster_url, parse_cluster_url}
use kube.Config.Files.{map_err}
use kube.Config.Loader.{
  KubeConfigOptions, ConfigLoader, ok_or, unwrap_or, new_from_options, new_from_kubeconfig,
}
use kube.Config.InCluster.{
  InClusterError, try_kube_from_env, load_cert, load_default_ns, token_file,
}
use kube.Config.Credentials.{ca_bundle, proxy_url, ok_of}

pub record InferConfigError (o : Outside) : Type 0 where
  pub in_cluster : InClusterError o
  pub kubeconfig : KubeconfigError o

pub record Config (o : Outside) : Type 0 where
  pub cluster_url : o.Uri
  pub default_namespace : String
  pub root_cert : Option (List (List ℕ))
  pub connect_timeout : Option ℕ
  pub read_timeout : Option ℕ
  pub write_timeout : Option ℕ
  pub accept_invalid_certs : Bool
  pub auth_info : AuthInfo
  pub proxy_url : Option o.Uri
  pub tls_server_name : Option String

-- The first part of a text goes on with a character.
abbrev pub longer : Char → List String → List String
longer c [] = []
longer c (part ∷ parts) = String.◌∷◌ c part ∷ parts

-- `split(',')`.
abbrev pub split_commas : String → List String
split_commas String.[] = "" ∷ []
split_commas (String.◌∷◌ c s) =
    let parts = split_commas s in if nat_beq (code c) b',' then "" ∷ parts else longer c parts

-- An override of the URL that cannot be parsed is ignored.
abbrev override_url : (o : Outside) → Option String → Option o.Uri
override_url o none = none
override_url o (some url) = ok_of (o.parse_uri url)

module _ {o : Outside} where
  unfoldable pub new : o.Uri → Config o
  new cluster_url = record {
    cluster_url = cluster_url;
    default_namespace = "default";
    root_cert = none;
    connect_timeout = some 30;
    read_timeout = some 295;
    write_timeout = none;
    accept_invalid_certs = false;
    auth_info = no_auth_info;
    proxy_url = none;
    tls_server_name = none;
  }

  abbrev impersonated : Option String → Config o → Config o
  impersonated none c = c
  impersonated (some user) c = record c {
    auth_info = record c.auth_info { impersonate = some user };
  }

  abbrev grouped : Option String → Config o → Config o
  grouped none c = c
  grouped (some groups) c = record c {
    auth_info = record c.auth_info { impersonate_groups = some (split_commas groups) };
  }

  abbrev redirected : Option o.Uri → Config o → Config o
  redirected none c = c
  redirected (some uri) c = record c { cluster_url = uri }

  unfoldable pub apply_debug_overrides : Config o → Config o
  apply_debug_overrides c =
      redirected (override_url o (ok_of (o.var "KUBE_RS_DEBUG_OVERRIDE_URL"))) (
        grouped (ok_of (o.var "KUBE_RS_DEBUG_IMPERSONATE_GROUP"))
          (impersonated (ok_of (o.var "KUBE_RS_DEBUG_IMPERSONATE_USER")) c))

module _ (o : Outside) where
  unfoldable pub new_from_loader : ConfigLoader o.Json → Result (KubeconfigError o) (Config o)
  unfolding ca_bundle proxy_url
  new_from_loader loader = do
    server ← ok_or missing_cluster_url loader.cluster.server
    cluster_url ← map_err parse_cluster_url (o.parse_uri server)
    root_cert ← ca_bundle o loader
    proxy ← proxy_url o loader
    ok (record {
      cluster_url = cluster_url;
      default_namespace = unwrap_or "default" loader.current_context.namespace;
      root_cert = root_cert;
      connect_timeout = some 30;
      read_timeout = some 295;
      write_timeout = none;
      accept_invalid_certs = unwrap_or false loader.cluster.insecure_skip_tls_verify;
      auth_info = loader.user;
      proxy_url = proxy;
      tls_server_name = loader.cluster.tls_server_name;
    })

  unfoldable pub from_kubeconfig : KubeConfigOptions → Result (KubeconfigError o) (Config o)
  unfolding new_from_loader new_from_options
  from_kubeconfig options = new_from_options o options >>= new_from_loader

  unfoldable pub from_custom_kubeconfig :
      Kubeconfig o.Json → KubeConfigOptions → Result (KubeconfigError o) (Config o)
  unfolding new_from_loader new_from_kubeconfig
  from_custom_kubeconfig config options = new_from_kubeconfig o config options >>= new_from_loader

  unfoldable pub incluster_with_uri : o.Uri → Result (InClusterError o) (Config o)
  unfolding load_cert load_default_ns
  incluster_with_uri cluster_url = do
    default_namespace ← load_default_ns o
    root_cert ← load_cert o
    ok (record {
      cluster_url = cluster_url;
      default_namespace = default_namespace;
      root_cert = some root_cert;
      connect_timeout = some 30;
      read_timeout = some 295;
      write_timeout = none;
      accept_invalid_certs = false;
      auth_info = record no_auth_info { token_file = some token_file };
      proxy_url = none;
      tls_server_name = none;
    })

  -- Also `incluster`.
  unfoldable pub incluster_env : Result (InClusterError o) (Config o)
  unfolding incluster_with_uri try_kube_from_env
  incluster_env = try_kube_from_env o >>= incluster_with_uri

  unfoldable pub incluster_dns : Result (InClusterError o) (Config o)
  unfolding incluster_with_uri
  incluster_dns = incluster_with_uri o.kube_dns

  abbrev pub or_incluster :
      Result (KubeconfigError o) (Config o) → Result (InferConfigError o) (Config o)
  unfolding incluster_env
  or_incluster (ok success) = ok success
  or_incluster (err kubeconfig_err) =
      map_err (λ in_cluster. record { in_cluster = in_cluster; kubeconfig = kubeconfig_err })
        incluster_env

  unfoldable pub infer : Result (InferConfigError o) (Config o)
  unfolding from_kubeconfig apply_debug_overrides
  infer = do
    config ← or_incluster (from_kubeconfig (record { context = none; cluster = none; user = none }))
    ok (apply_debug_overrides config)
