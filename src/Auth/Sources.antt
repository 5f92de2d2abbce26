-- ===== src/Auth/Sources.antt =====
-- The data of kube-client/src/client/auth/mod.rs, and what it takes from the system, from libraries, and
-- from its modules oauth and oidc. Times are in seconds; what is read or run may differ from time to
-- time.
use kube.Prelude.{ℕ, Bool, Option, List, String, Result}
use kube.Prelude.HashMap.{HashMap}

pub data EnvChange : Type 0 where
  env : String → String → EnvChange
  env_remove : String → EnvChange

pub data Stdin : Type 0 where
  inherit piped unset : Stdin

-- `std::process::Command`; the changes of the environment are in their order.
pub record Command : Type 0 where
  pub program : String
  pub args : List String
  pub envs : List EnvChange
  pub stdin : Stdin

pub record ExecCredentialSpec : Type 0 where
  pub interactive : Option Bool

pub record ExecCredentialStatus : Type 0 where
  pub expiration_timestamp : Option String
  pub token : Option String
  pub client_certificate_data : Option String
  pub client_key_data : Option String

pub record ExecCredential : Type 0 where
  pub kind : Option String
  pub api_version : Option String
  pub spec : Option ExecCredentialSpec
  pub status : Option ExecCredentialStatus

pub record Sources : Type 1 where
  -- std::fs and std::process
  pub IoError : Type 0
  pub show_io : IoError → String
  pub read_to_string : ℕ → String → Result IoError String
  pub Bytes : Type 0
  pub Output : Type 0
  pub success : Output → Bool
  pub stdout : Output → Bytes
  pub run : ℕ → Command → Result IoError Output
  pub show_command : Command → String
  pub Utf8Error : Type 0
  pub show_utf8 : Utf8Error → String
  pub from_utf8 : Bytes → Result Utf8Error String
  -- chrono: RFC 3339
  pub ParseError : Type 0
  pub parse_time : String → Result ParseError ℕ
  pub to_rfc3339 : ℕ → String
  -- serde_json and jsonpath_lib
  pub JsonError : Type 0
  pub Json : Type 0
  pub to_string : ExecCredential → Result JsonError String
  pub parse_credential : Bytes → Result JsonError ExecCredential
  pub parse_value : Bytes → Result JsonError Json
  pub as_string : Json → Option String
  pub SelectError : Type 0
  pub show_select : SelectError → String
  pub select : Json → String → Result SelectError (List Json)
  -- http
  pub InvalidHeaderValue : Type 0
  pub HeaderValue : Type 0
  pub header_value : String → Result InvalidHeaderValue HeaderValue
  -- oauth::Gcp
  pub OAuthError : Type 0
  pub Gcp : Type 0
  pub default_credentials : Option String → Result OAuthError Gcp
  pub access_token : ℕ → Gcp → Result OAuthError String
  -- oidc::Oidc
  pub OidcError : Type 0
  pub Oidc : Type 0
  pub from_config : HashMap String String → Result OidcError Oidc
  pub id_token : ℕ → Oidc → Result OidcError String × Oidc

pub data Error (s : Sources) : Type 0 where
  invalid_basic_auth : s.InvalidHeaderValue → Error s
  invalid_bearer_token : s.InvalidHeaderValue → Error s
  unrefreshable_token_response : Error s
  exec_plugin_failed : Error s
  malformed_token_expiration_date : s.ParseError → Error s
  auth_exec_start : s.IoError → Error s
  auth_exec_run : String → s.Output → Error s
  auth_exec_parse : s.JsonError → Error s
  auth_exec_serialize : s.JsonError → Error s
  auth_exec_error : String → Error s
  read_token_file : s.IoError → String → Error s
  parse_token_key : s.JsonError → Error s
  missing_command : Error s
  oauth_error : s.OAuthError → Error s
  oidc_error : s.OidcError → Error s
