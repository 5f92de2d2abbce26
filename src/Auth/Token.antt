-- ===== src/Auth/Token.antt =====
-- Token files and credentials of kube-client/src/client/auth/mod.rs. A lock is one step.
use kube.Prelude.{
  ℕ, ◌+◌, Bool, Option, none, some, String, string_eq, if◌then◌else◌, ltb, Result, ok, err, ◌>>=◌,
}
use kube.Prelude.HashMap
use kube.Config.Kubeconfig.{AuthInfo, AuthProviderConfig, ExecConfig}
use kube.Config.Files.{map_err}
use kube.Config.Loader.{ok_or}
use kube.Auth.Sources.{
  Sources, Error, ExecCredentialStatus, read_token_file, exec_plugin_failed,
  malformed_token_expiration_date,
}
use kube.Auth.Exec.{auth_exec}
use kube.Auth.Provider.{ProviderToken, oidc, gcp_command_token, gcp_oauth, token_from_provider}

pub record TokenFile : Type 0 where
  pub path : String
  pub token : String
  pub expires_at : ℕ

abbrev pub is_expiring : ℕ → TokenFile → Bool
is_expiring now f = ltb f.expires_at (now + 10)

unfoldable pub cached_token : ℕ → TokenFile → Option String
cached_token now f = if is_expiring now f then none else some f.token

module _ (s : Sources) where
  -- The clock is read once the file was.
  unfoldable pub new_file : ℕ → String → Result (Error s) TokenFile
  new_file now path = do
    token ← map_err (λ e. read_token_file e path) (s.read_to_string now path)
    ok (record { path = path; token = token; expires_at = now + 60 })

  abbrev pub reloaded : Result s.IoError String → String → String
  reloaded (ok token) last = token
  reloaded (err e) last = last

  -- The clock is read for the test, and after the file was read.
  unfoldable pub token : ℕ → ℕ → TokenFile → TokenFile
  token now later f =
      if is_expiring now f
      then record f {
        token = reloaded (s.read_to_string later f.path) f.token;
        expires_at = later + 60;
      }
      else f

  pub data RefreshableToken : Type 0 where
    exec : String → ℕ → AuthInfo → RefreshableToken
    file : TokenFile → RefreshableToken
    gcp_oauth_token : s.Gcp → RefreshableToken
    oidc_token : s.Oidc → RefreshableToken

  pub data Auth : Type 0 where
    no_auth : Auth
    basic : String → String → Auth
    bearer : String → Auth
    refreshable : RefreshableToken → Auth
    certificate : String → String → Auth

  -- The provider remembers the token that it gave.
  abbrev pub remembering : String → ℕ → AuthProviderConfig → AuthProviderConfig
  unfolding HashMap.insert
  remembering access_token expiry provider = record provider {
    config =
        HashMap.insert "expiry" (s.to_rfc3339 expiry)
          (HashMap.insert "access-token" access_token provider.config);
  }

  abbrev pub auth_of_provider : AuthInfo → AuthProviderConfig → ProviderToken s → Auth
  unfolding HashMap.insert
  auth_of_provider auth_info provider (oidc o) = refreshable (oidc_token o)
  auth_of_provider auth_info provider (gcp_command_token t (some expiry)) =
      refreshable
        (exec t expiry (record auth_info { auth_provider = some (remembering t expiry provider) }))
  auth_of_provider auth_info provider (gcp_command_token t none) = bearer t
  auth_of_provider auth_info provider (gcp_oauth gcp) = refreshable (gcp_oauth_token gcp)

  abbrev expiration_of : Option String → Result (Error s) (Option ℕ)
  expiration_of none = ok none
  expiration_of (some ts) =
      map_err malformed_token_expiration_date (s.parse_time ts) >>= λ time. ok (some time)

  abbrev token_auth : AuthInfo → Option String → Option ℕ → Auth
  token_auth auth_info (some t) (some expire) = refreshable (exec t expire auth_info)
  token_auth auth_info (some t) none = bearer t
  token_auth auth_info none expiration = no_auth

  abbrev pub status_auth :
      AuthInfo → ExecCredentialStatus → Option String → Option String → Result (Error s) Auth
  status_auth auth_info status (some cert) (some key) = ok (certificate cert key)
  status_auth auth_info status (some cert) none =
      expiration_of status.expiration_timestamp >>= λ e. ok (token_auth auth_info status.token e)
  status_auth auth_info status none key =
      expiration_of status.expiration_timestamp >>= λ e. ok (token_auth auth_info status.token e)

  abbrev pub from_exec : ℕ → AuthInfo → Option ExecConfig → Result (Error s) Auth
  unfolding auth_exec
  from_exec now auth_info none = ok no_auth
  from_exec now auth_info (some plugin) = do
    creds ← auth_exec s now plugin
    status ← ok_or exec_plugin_failed creds.status
    status_auth auth_info status status.client_certificate_data status.client_key_data

  abbrev pub from_file : ℕ → AuthInfo → Option String → Result (Error s) Auth
  unfolding new_file
  from_file now auth_info (some path) = new_file now path >>= λ f. ok (refreshable (file f))
  from_file now auth_info none = from_exec now auth_info auth_info.exec

  abbrev pub from_token : ℕ → AuthInfo → Option String → Result (Error s) Auth
  from_token now auth_info (some t) = ok (bearer t)
  from_token now auth_info none = from_file now auth_info auth_info.token_file

  abbrev pub from_password : ℕ → AuthInfo → Option String → Option String → Result (Error s) Auth
  from_password now auth_info (some u) (some p) = ok (basic u p)
  from_password now auth_info (some u) none = from_token now auth_info auth_info.token
  from_password now auth_info none p = from_token now auth_info auth_info.token

  abbrev pub from_provider : ℕ → AuthInfo → Option AuthProviderConfig → Result (Error s) Auth
  unfolding token_from_provider
  from_provider now auth_info (some provider) =
      token_from_provider s now provider >>= λ t. ok (auth_of_provider auth_info provider t)
  from_provider now auth_info none =
      from_password now auth_info auth_info.username auth_info.password

  unfoldable pub try_from : ℕ → AuthInfo → Result (Error s) Auth
  try_from now auth_info = from_provider now auth_info auth_info.auth_provider
