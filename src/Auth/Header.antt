-- ===== src/Auth/Header.antt =====
-- `RefreshableToken::to_header` of kube-client/src/client/auth/mod.rs. Each reading of the clock has its
-- number. A header is the text that it is made of.
use kube.Prelude.{
  ℕ, ◌+◌, Option, none, some, String, ◌+++◌, if◌then◌else◌, leb, Result, ok, err, ◌>>=◌,
}
use kube.Config.Kubeconfig.{AuthInfo}
use kube.Config.Files.{map_err}
use kube.Auth.Sources.{
  Sources, Error, invalid_bearer_token, unrefreshable_token_response, oauth_error, oidc_error,
}
use kube.Auth.Token.{
  TokenFile, cached_token, token, RefreshableToken, exec, file, gcp_oauth_token, oidc_token, Auth,
  no_auth, basic, bearer, refreshable, certificate, try_from,
}

-- The panic of a token source that has changed.
pub data SourceFault : Type 0 where
  token_source_changed : SourceFault

module _ (s : Sources) where
  abbrev pub bearer_header : String → Result (Error s) s.HeaderValue
  bearer_header t = map_err invalid_bearer_token (s.header_value ("Bearer " +++ t))

  -- The answer, and the token afterwards.
  abbrev pub Answer : Type 0
  Answer = Result SourceFault (Result (Error s) s.HeaderValue × RefreshableToken s)

  abbrev header_of_exec : String → ℕ → AuthInfo → Answer
  header_of_exec t expiry info = ok (bearer_header t, exec t expiry info)

  -- What a new token becomes: the fields are overwritten one after the other.
  abbrev pub refreshed : RefreshableToken s → Result (Error s) (Auth s) → Answer
  refreshed old (err e) = ok (err e, old)
  refreshed old (ok (refreshable (exec t expiry info))) = header_of_exec t expiry info
  refreshed old (ok (refreshable (file f))) = err token_source_changed
  refreshed old (ok (refreshable (gcp_oauth_token gcp))) = err token_source_changed
  refreshed old (ok (refreshable (oidc_token o))) = err token_source_changed
  refreshed old (ok no_auth) = ok (err unrefreshable_token_response, old)
  refreshed old (ok (basic u p)) = ok (err unrefreshable_token_response, old)
  refreshed old (ok (bearer t)) = ok (err unrefreshable_token_response, old)
  refreshed old (ok (certificate c k)) = ok (err unrefreshable_token_response, old)

  abbrev pub header_of_file : TokenFile → (ℕ → ℕ) → Option String → Answer
  unfolding token
  header_of_file f clock (some t) = ok (bearer_header t, file f)
  header_of_file f clock none =
      let f' = token s (clock 1) (clock 2) f in ok (bearer_header f'.token, file f')

  abbrev header_of_oidc : Result s.OidcError String × s.Oidc → Answer
  header_of_oidc (answer, o) = ok (map_err oidc_error answer >>= bearer_header, oidc_token o)

  unfoldable pub to_header : (ℕ → ℕ) → RefreshableToken s → Answer
  unfolding try_from cached_token
  to_header clock (exec t expiry info) =
      let new_auth = refreshed (exec t expiry info) (try_from s (clock 1) info) in
      if leb expiry (clock 0 + 60) then new_auth else header_of_exec t expiry info
  to_header clock (file f) = header_of_file f clock (cached_token (clock 0) f)
  to_header clock (gcp_oauth_token gcp) =
      ok (map_err oauth_error (s.access_token (clock 0) gcp) >>= bearer_header, gcp_oauth_token gcp)
  to_header clock (oidc_token o) = header_of_oidc (s.id_token (clock 0) o)
