-- ===== src/Auth/Provider.antt =====
-- The authentication providers of kube-client/src/client/auth/mod.rs, with the features oauth and oidc.
use kube.Prelude.{
  ℕ, ◌+◌, Bool, ◌&&◌, ◌||◌, Option, none, some, List, [], ◌∷◌, map, String, ◌==◌, ◌+++◌, string_eq,
  if◌then◌else◌, ltb, leb, nat_beq, is_empty_text, Result, ok, err, ◌>>=◌,
}
use Prim.Native.Char.{code}
use kube.Prelude.HashMap
use kube.Prelude.HashMap.{HashMap}
use kube.Config.Kubeconfig.{AuthProviderConfig}
use kube.Config.Files.{map_err}
use kube.Config.Client.{longer}
use kube.Config.Loader.{unwrap_or}
use kube.Auth.Sources.{
  Sources, Error, Command, env_remove, unset, malformed_token_expiration_date, auth_exec_run,
  auth_exec_error, parse_token_key, oauth_error, oidc_error,
}

-- `char::is_whitespace`: the code points of White_Space.
abbrev is_whitespace : ℕ → Bool
is_whitespace c =
    (leb 9 c && leb c 13)
    || nat_beq c 32
    || nat_beq c 133
    || nat_beq c 160
    || nat_beq c 5760
    || (leb 8192 c && leb c 8202)
    || nat_beq c 8232
    || nat_beq c 8233
    || nat_beq c 8239
    || nat_beq c 8287
    || nat_beq c 12288

module _ (strips : ℕ → Bool) where
  abbrev trim_start : String → String
  trim_start String.[] = ""
  trim_start (String.◌∷◌ c s) =
      let rest = trim_start s in if strips (code c) then rest else String.◌∷◌ c s

  abbrev trim_end : String → String
  trim_end String.[] = ""
  trim_end (String.◌∷◌ c s) =
      let rest = trim_end s in
      if strips (code c) && is_empty_text rest then "" else String.◌∷◌ c rest

  -- `trim_matches`.
  abbrev pub trim_matches : String → String
  trim_matches s = trim_end (trim_start s)

abbrev pub trim : String → String
trim = trim_matches is_whitespace

-- `split(' ')`.
abbrev pub split_spaces : String → List String
split_spaces String.[] = "" ∷ []
split_spaces (String.◌∷◌ c s) =
    let parts = split_spaces s in if nat_beq (code c) 32 then "" ∷ parts else longer c parts

abbrev pub HashText : Type 0
HashText = HashMap String String

-- The text of a key, or the empty one.
abbrev text_of : Option String → String
text_of = unwrap_or ""

abbrev pub gcp_command : HashText → String → Command
unfolding HashMap.get
gcp_command config cmd = record {
  program = cmd;
  args = split_spaces (trim (text_of (HashMap.get config "cmd-args")));
  envs = map env_remove (split_spaces (trim (text_of (HashMap.get config "cmd-drop-env"))));
  stdin = unset;
}

-- The quotation mark and the braces.
abbrev is_delimiter : ℕ → Bool
is_delimiter c = nat_beq c 34 || nat_beq c 123 || nat_beq c 125

module _ (s : Sources) where
  pub data ProviderToken : Type 0 where
    oidc : s.Oidc → ProviderToken
    gcp_command_token : String → Option ℕ → ProviderToken
    gcp_oauth : s.Gcp → ProviderToken

  abbrev string_in : String → Option String → Result (Error s) String
  string_in pure_path (some res) = ok res
  string_in pure_path none =
      err (auth_exec_error ("Target value at " +++ pure_path +++ " is not a string"))

  abbrev first_value : String → Result s.SelectError (List s.Json) → Result (Error s) String
  first_value pure_path (ok (v ∷ vs)) = string_in pure_path (s.as_string v)
  first_value pure_path (ok []) =
      err (auth_exec_error ("Target value " +++ pure_path +++ " not found"))
  first_value pure_path (err e) =
      err (auth_exec_error ("Could not extract JSON value: " +++ s.show_select e))

  abbrev pub extract_value : s.Json → String → Result (Error s) String
  extract_value json path =
      let pure_path = trim_matches is_delimiter path in
      first_value pure_path (s.select json ("$" +++ pure_path))

  abbrev parsed_time : String → Result (Error s) ℕ
  parsed_time text = map_err malformed_token_expiration_date (s.parse_time text)

  abbrev expiry_in : s.Json → Option String → Result (Error s) (Option ℕ)
  expiry_in json none = ok none
  expiry_in json (some field) = do
    expiry ← extract_value json field
    time ← parsed_time expiry
    ok (some time)

  -- The token of the output of a command.
  abbrev pub token_in : HashText → s.Output → Option String → Result (Error s) ProviderToken
  token_in config output none = do
    token ←
        map_err (λ e. auth_exec_error ("Result is not a string " +++ s.show_utf8 e +++ " "))
          (s.from_utf8 (s.stdout output))
    ok (gcp_command_token token none)
  token_in config output (some field) = do
    json ← map_err parse_token_key (s.parse_value (s.stdout output))
    token ← extract_value json field
    expiry ← expiry_in json (HashMap.get config "expiry-key")
    ok (gcp_command_token token expiry)

  abbrev pub run_command : ℕ → HashText → String → Result (Error s) ProviderToken
  run_command now config cmd = do
    output ←
        map_err (λ e. auth_exec_error ("Executing " +++ cmd +++ " failed: " +++ s.show_io e))
          (s.run now (gcp_command config cmd))
    if s.success output
        then token_in config output (HashMap.get config "token-key")
        else err (auth_exec_run (cmd +++ " " +++ text_of (HashMap.get config "cmd-args")) output)

  -- The token that was cached, if it is valid for more than a minute.
  abbrev pub cached : ℕ → Option String → Option String → Result (Error s) (Option ProviderToken)
  cached now (some access_token) (some expiry) = do
    expiry_date ← parsed_time expiry
    if ltb (now + 60) expiry_date
        then ok (some (gcp_command_token access_token (some expiry_date)))
        else ok none
  cached now (some access_token) none = ok none
  cached now none expiry = ok none

  -- A command, or else the default credentials.
  abbrev pub new_token : ℕ → HashText → Option String → Result (Error s) ProviderToken
  new_token now config (some cmd) = run_command now config cmd
  new_token now config none =
      map_err oauth_error (s.default_credentials (HashMap.get config "scopes")) >>= λ gcp.
      ok (gcp_oauth gcp)

  abbrev pub cached_or_new : ℕ → HashText → Option ProviderToken → Result (Error s) ProviderToken
  cached_or_new now config (some token) = ok token
  cached_or_new now config none = new_token now config (HashMap.get config "cmd-path")

  abbrev pub id_token_or : ℕ → HashText → Option String → Result (Error s) ProviderToken
  id_token_or now config (some id_token) = ok (gcp_command_token id_token none)
  id_token_or now config none =
      cached now (HashMap.get config "access-token") (HashMap.get config "expiry")
      >>= cached_or_new now config

  unfoldable pub token_from_gcp_provider : ℕ → AuthProviderConfig → Result (Error s) ProviderToken
  unfolding HashMap.get
  token_from_gcp_provider now provider =
      id_token_or now provider.config (HashMap.get provider.config "id-token")

  unfoldable pub token_from_provider : ℕ → AuthProviderConfig → Result (Error s) ProviderToken
  unfolding token_from_gcp_provider
  token_from_provider now provider =
      if provider.name == "oidc"
      then (map_err oidc_error (s.from_config provider.config) >>= λ o. ok (oidc o))
      else if provider.name == "gcp"
      then token_from_gcp_provider now provider
      else if provider.name == "azure"
      then err (
          auth_exec_error
            "The azure auth plugin is not supported; use https://github.com/Azure/kubelogin instead")
      else err
          (auth_exec_error ("Authentication with provider " +++ provider.name +++ " not supported"))
