-- ===== src/Auth/Lasting.antt =====
-- Refreshable tokens of kube-client/src/client/auth/mod.rs, from their making on.
use kube.Prelude.{
  ℕ, ◌+◌, ◌≡◌, refl, subst, true, Option, none, some, String, leb, Result, ok, err, inl, inr,
  Bool-cases,
}
use kube.Config.Kubeconfig.{AuthInfo}
use kube.Auth.Sources.{Sources, Error}
use kube.Auth.Token.{
  RefreshableToken, exec, file, gcp_oauth_token, oidc_token, Auth, no_auth, basic, bearer,
  refreshable, certificate, cached_token, try_from, token, TokenFile,
}
use kube.Auth.Header.{Answer, header_of_file, refreshed, to_header}
use kube.Auth.Steady.{SteadyInfo, CommandedIf, MadeSteady, exec_only, provider-Steady, made-Steady}

module _ (s : Sources) where
  -- A token that stays of its source.
  abbrev Lasting : RefreshableToken s → Type 0
  Lasting (exec t e info) = SteadyInfo s info
  Lasting _ = Unit

  abbrev LastingAnswer : Answer s → Type 0
  LastingAnswer (ok (h, x)) = Lasting x
  LastingAnswer (err fault) = ⊥

  refreshed-Lasting :
      (old : RefreshableToken s) (r : Result (Error s) (Auth s))
      → Lasting old
      → exec_only s r ≡ true
      → MadeSteady s r
      → LastingAnswer (refreshed s old r)
  refreshed-Lasting old (ok (refreshable (exec t e info))) l h steady = steady
  refreshed-Lasting old (ok (refreshable (file f))) l h steady = absurd cc
  refreshed-Lasting old (ok (refreshable (gcp_oauth_token g))) l h steady = absurd cc
  refreshed-Lasting old (ok (refreshable (oidc_token o))) l h steady = absurd cc
  refreshed-Lasting old (ok no_auth) l h steady = l
  refreshed-Lasting old (ok (basic u p)) l h steady = l
  refreshed-Lasting old (ok (bearer t)) l h steady = l
  refreshed-Lasting old (ok (certificate c k)) l h steady = l
  refreshed-Lasting old (err e) l h steady = l

  file-Lasting :
      (f : TokenFile) (clock : ℕ → ℕ) (o : Option String)
      → LastingAnswer (header_of_file s f clock o)
  unfolding token
  file-Lasting f clock none = tt
  file-Lasting f clock (some t) = tt

  to_header-Lasting :
      (clock : ℕ → ℕ) (x : RefreshableToken s) → Lasting x → LastingAnswer (to_header s clock x)
  unfolding to_header try_from
  to_header-Lasting clock (exec t e info) l =
      let (only, steady) = provider-Steady s (clock 1) info info.auth_provider refl l in
      elim (Bool-cases (leb e (clock 0 + 60))) [
        | inl h ↦ rw h (refreshed-Lasting (exec t e info) (try_from s (clock 1) info) l only steady)
        | inr h ↦ rw h l
      ]
  to_header-Lasting clock (file f) l = file-Lasting f clock (cached_token (clock 0) f)
  to_header-Lasting clock (gcp_oauth_token g) l = tt
  to_header-Lasting clock (oidc_token o) l = tt

  -- A token that was made of credentials, and then used for headers.
  pub data Held (info : AuthInfo) : RefreshableToken s → Type 0 where
    made :
        (now : ℕ) (x : RefreshableToken s) → try_from s now info ≡ ok (refreshable x) → Held info x
    asked :
        (clock : ℕ → ℕ) (x x' : RefreshableToken s) (h : Result (Error s) s.HeaderValue)
        → Held info x
        → to_header s clock x ≡ ok (h, x')
        → Held info x'

  refreshable-Lasting : (x : RefreshableToken s) → MadeSteady s (ok (refreshable x)) → Lasting x
  refreshable-Lasting (exec t e info) m = m
  refreshable-Lasting (file f) m = tt
  refreshable-Lasting (gcp_oauth_token g) m = tt
  refreshable-Lasting (oidc_token o) m = tt

  Held-Lasting :
      (info : AuthInfo) (x : RefreshableToken s)
      → CommandedIf info.auth_provider
      → Held info x
      → Lasting x
  unfolding try_from
  Held-Lasting info _ c (made now x h) =
      refreshable-Lasting x
        (subst (MadeSteady s) h (made-Steady s now info info.auth_provider refl c))
  Held-Lasting info _ c (asked clock x x' h before e) =
      subst LastingAnswer e (to_header-Lasting clock x (Held-Lasting info x c before))

  answered :
      (answer : Answer s)
      → LastingAnswer answer
      → (h : Result (Error s) s.HeaderValue) × (x : RefreshableToken s) × (answer ≡ ok (h, x))
  answered (ok (h, x)) l = (h, x, refl)
  answered (err fault) l = absurd l

  -- A refreshable token never panics, however often and at whatever times headers are made of it, and
  -- whatever files, commands and plugins give, if a gcp provider among the credentials that it was
  -- made of has a command: then its source is not another one when it is refreshed.
  pub to_header-Answered :
      (info : AuthInfo) (x : RefreshableToken s) (clock : ℕ → ℕ)
      → CommandedIf info.auth_provider
      → Held info x
      → (h : Result (Error s) s.HeaderValue) × (x' : RefreshableToken s) × (to_header s clock x
          ≡ ok (h, x'))
  to_header-Answered info x clock c held =
      answered (to_header s clock x) (to_header-Lasting clock x (Held-Lasting info x c held))
