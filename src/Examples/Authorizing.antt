-- ===== src/Examples/Authorizing.antt =====
-- Inputs for the theorems about kube-client/src/client/auth/mod.rs: a token file, a plugin, and a provider
-- whose source changes.
use kube.Prelude.{
  ℕ, ◌+◌, ◌≡◌, refl, true, none, some, [], ◌∷◌, String, string_eq, Result, ok, err, arith,
}
use kube.Prelude.HashMap
use kube.Config.Kubeconfig.{AuthInfo, no_auth_info}
use kube.Auth.Sources.{Sources, Error, ExecCredential}
use kube.Auth.Exec.{auth_exec}
use kube.Auth.Provider.{token_from_provider, token_from_gcp_provider}
use kube.Auth.Token.{try_from, RefreshableToken, TokenFile, exec, file, new_file}
use kube.Auth.Header.{token_source_changed, to_header}
use kube.Auth.Freshness.{FreshAnswer, loaded, to_header-Fresh}
use kube.Auth.Lasting.{made, to_header-Answered}

abbrev given : ExecCredential
given = record {
  kind = none;
  api_version = none;
  spec = none;
  status = some (record {
    expiration_timestamp = some "200";
    token = some "token";
    client_certificate_data = none;
    client_key_data = none;
  });
}

-- The token file holds a token at all times, and a plugin gives a credential.
abbrev house : Sources
house = record {
  IoError = ℕ;
  show_io = λ e. "";
  read_to_string = λ now path. ok "secret";
  Bytes = Unit;
  Output = Unit;
  success = λ o. true;
  stdout = λ o. tt;
  run = λ now c. ok tt;
  show_command = λ c. "";
  Utf8Error = ℕ;
  show_utf8 = λ e. "";
  from_utf8 = λ b. ok "";
  ParseError = ℕ;
  parse_time = λ s. ok 200;
  to_rfc3339 = λ t. "200";
  JsonError = ℕ;
  Json = ℕ;
  to_string = λ c. ok "";
  parse_credential = λ b. ok given;
  parse_value = λ b. ok 0;
  as_string = λ j. none;
  SelectError = ℕ;
  show_select = λ e. "";
  select = λ j p. ok [];
  InvalidHeaderValue = ℕ;
  HeaderValue = String;
  header_value = ok;
  OAuthError = ℕ;
  Gcp = ℕ;
  default_credentials = λ s. ok 0;
  access_token = λ now g. ok "";
  OidcError = ℕ;
  Oidc = ℕ;
  from_config = λ c. ok 0;
  id_token = λ now o. (ok "", o);
}

abbrev plugin : AuthInfo
plugin = record no_auth_info {
  exec = some (record {
    api_version = none;
    command = some "login";
    args = none;
    env = none;
    drop_env = none;
    interactive_mode = none;
  });
}

abbrev token_file : TokenFile
token_file = record { path = "token"; token = "secret"; expires_at = 70 }

to_header-Fresh_example :
    FreshAnswer house "token" 65 (to_header house (λ i. 65 + i) (file token_file))
unfolding new_file
to_header-Fresh_example =
    to_header-Fresh house "token" (λ i. 65 + i) token_file (loaded 10 "token" token_file refl)
      (omega arith) (omega arith)

to_header-Answered_example :
    (h : Result (Error house) String) × (x' : RefreshableToken house) × (to_header house
        (λ i. 190 + i)
        (exec "token" 200 plugin)
      ≡ ok (h, x'))
unfolding try_from auth_exec new_file token_from_provider token_from_gcp_provider HashMap.insert
    HashMap.get
to_header-Answered_example =
    to_header-Answered house plugin (exec "token" 200 plugin) (λ i. 190 + i) tt
      (made 10 (exec "token" 200 plugin) refl)

-- A gcp provider with a token that was cached, and no command.
abbrev cached : AuthInfo
cached = record no_auth_info {
  auth_provider = some (record {
    name = "gcp";
    config = record { entries = ("access-token", "token") ∷ ("expiry", "200") ∷ [] };
  });
}

source_changes : to_header house (λ i. 190 + i) (exec "token" 200 cached) ≡ err token_source_changed
unfolding to_header try_from auth_exec new_file token_from_provider token_from_gcp_provider
    HashMap.insert HashMap.get
source_changes = refl
