-- ===== src/Config/Outside.antt =====
-- What the configuration takes from outside, and the errors of kube-client/src/config/mod.rs. A path
-- is what `std::path` makes of a text; the file system and the environment do not change while a
-- configuration is read.
use kube.Prelude.{ℕ, Bool, Option, List, String, Result}
use kube.Config.Kubeconfig.{Kubeconfig}

pub record Outside : Type 1 where
  -- std::path
  pub FilePath : Type 0
  pub path : String → FilePath
  pub parent : FilePath → Option FilePath
  pub is_relative : FilePath → Bool
  pub is_empty : FilePath → Bool
  pub join : FilePath → FilePath → FilePath
  pub to_str : FilePath → Option String
  -- std::fs
  pub IoError : Type 0
  pub read : FilePath → Result IoError (List ℕ)
  pub read_to_string : FilePath → Result IoError String
  -- std::env: a variable that is not Unicode is an error for `var`.
  pub VarError : Type 0
  pub OsString : Type 0
  pub var_os : String → Option OsString
  pub var : String → Result VarError String
  pub split_paths : OsString → List FilePath
  pub home_dir : Option FilePath
  -- serde_yaml: the documents of a text, and the structure of one.
  pub Json : Type 0
  pub YamlError : Type 0
  pub YamlValue : Type 0
  pub documents : String → List (Result YamlError YamlValue)
  pub from_value : YamlValue → Result YamlError (Kubeconfig Json)
  -- base64, and pem: tags with contents
  pub DecodeError : Type 0
  pub decode : String → Result DecodeError (List ℕ)
  pub PemError : Type 0
  pub parse_many : List ℕ → Result PemError (List (String × List ℕ))
  -- http::Uri
  pub Uri : Type 0
  pub InvalidUri : Type 0
  pub parse_uri : String → Result InvalidUri Uri
  pub kube_dns : Uri
  -- Numbers and addresses as text, of core and std::net
  pub ParseIntError : Type 0
  pub parse_u16 : String → Result ParseIntError ℕ
  pub IpAddr : Type 0
  pub parse_ip : String → Option IpAddr
  pub is_ipv6 : IpAddr → Bool
  pub show_ip : IpAddr → String
  pub show_socket : IpAddr → ℕ → String
  pub show_port : ℕ → String

pub data LoadDataError (o : Outside) : Type 0 where
  decode_base64 : o.DecodeError → LoadDataError o
  read_file : o.IoError → o.FilePath → LoadDataError o
  no_base64_data_or_file : LoadDataError o

pub data KubeconfigError (o : Outside) : Type 0 where
  current_context_not_set : KubeconfigError o
  kind_mismatch : KubeconfigError o
  api_version_mismatch : KubeconfigError o
  load_context : String → KubeconfigError o
  load_cluster_of_context : String → KubeconfigError o
  find_user : String → KubeconfigError o
  find_path : KubeconfigError o
  read_config : o.IoError → o.FilePath → KubeconfigError o
  parse : o.YamlError → KubeconfigError o
  invalid_structure : o.YamlError → KubeconfigError o
  missing_cluster_url : KubeconfigError o
  parse_cluster_url : o.InvalidUri → KubeconfigError o
  parse_proxy_url : o.InvalidUri → KubeconfigError o
  load_certificate_authority : LoadDataError o → KubeconfigError o
  load_client_certificate : LoadDataError o → KubeconfigError o
  load_client_key : LoadDataError o → KubeconfigError o
  parse_certificates : o.PemError → KubeconfigError o
