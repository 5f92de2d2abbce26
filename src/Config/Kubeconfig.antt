-- ===== src/Config/Kubeconfig.antt =====
-- The data of kube-client/src/config/file_config.rs. A secret is its text, and `V` are the values of
-- JSON.
use kube.Prelude.{Bool, Option, none, List, [], String}
use kube.Prelude.HashMap.{HashMap}

pub record NamedExtension (V : Type 0) : Type 0 where
  pub name : String
  pub extension : V

pub record Preferences (V : Type 0) : Type 0 where
  pub colors : Option Bool
  pub extensions : Option (List (NamedExtension V))

pub record Cluster (V : Type 0) : Type 0 where
  pub server : Option String
  pub insecure_skip_tls_verify : Option Bool
  pub certificate_authority : Option String
  pub certificate_authority_data : Option String
  pub proxy_url : Option String
  pub tls_server_name : Option String
  pub extensions : Option (List (NamedExtension V))

pub record NamedCluster (V : Type 0) : Type 0 where
  pub name : String
  pub cluster : Option (Cluster V)

pub record AuthProviderConfig : Type 0 where
  pub name : String
  pub config : HashMap String String

pub data ExecInteractiveMode : Type 0 where
  never if_available always : ExecInteractiveMode

pub record ExecConfig : Type 0 where
  pub api_version : Option String
  pub command : Option String
  pub args : Option (List String)
  pub env : Option (List (HashMap String String))
  pub drop_env : Option (List String)
  pub interactive_mode : Option ExecInteractiveMode

pub record AuthInfo : Type 0 where
  pub username : Option String
  pub password : Option String
  pub token : Option String
  pub token_file : Option String
  pub client_certificate : Option String
  pub client_certificate_data : Option String
  pub client_key : Option String
  pub client_key_data : Option String
  pub impersonate : Option String
  pub impersonate_groups : Option (List String)
  pub auth_provider : Option AuthProviderConfig
  pub exec : Option ExecConfig

abbrev pub no_auth_info : AuthInfo
no_auth_info = record {
  username = none;
  password = none;
  token = none;
  token_file = none;
  client_certificate = none;
  client_certificate_data = none;
  client_key = none;
  client_key_data = none;
  impersonate = none;
  impersonate_groups = none;
  auth_provider = none;
  exec = none;
}

pub record NamedAuthInfo : Type 0 where
  pub name : String
  pub auth_info : Option AuthInfo

pub record Context (V : Type 0) : Type 0 where
  pub cluster : String
  pub user : String
  pub namespace : Option String
  pub extensions : Option (List (NamedExtension V))

pub record NamedContext (V : Type 0) : Type 0 where
  pub name : String
  pub context : Option (Context V)

pub record Kubeconfig (V : Type 0) : Type 0 where
  pub preferences : Option (Preferences V)
  pub clusters : List (NamedCluster V)
  pub auth_infos : List NamedAuthInfo
  pub contexts : List (NamedContext V)
  pub current_context : Option String
  pub extensions : Option (List (NamedExtension V))
  pub kind : Option String
  pub api_version : Option String

-- `Kubeconfig::default()`.
abbrev pub no_kubeconfig : {V : Type 0} → Kubeconfig V
no_kubeconfig = record {
  preferences = none;
  clusters = [];
  auth_infos = [];
  contexts = [];
  current_context = none;
  extensions = none;
  kind = none;
  api_version = none;
}
