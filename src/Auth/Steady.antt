-- ===== src/Auth/Steady.antt =====
-- That a token source of kube-client/src/client/auth/mod.rs which is refreshed stays what it is.
use kube.Prelude.{
  ℕ, ◌≡◌, refl, sym, subst, Bool, true, false, Option, none, some, String, ◌==◌, string_eq,
  string_iff, is_some, Result, ok, err, ◌>>=◌, inl, inr, Bool-cases, arith,
}
use kube.Prelude.HashMap
use kube.Prelude.HashMap.{HashMap, get-insert}
use kube.Config.Kubeconfig.{AuthInfo, AuthProviderConfig, ExecConfig}
use kube.Auth.Sources.{Sources, Error}
use kube.Auth.Exec.{auth_exec}
use kube.Auth.Provider.{
  ProviderToken, oidc, gcp_command_token, gcp_oauth, id_token_or, new_token, run_command, token_in,
  token_from_provider, token_from_gcp_provider,
}
use kube.Auth.Token.{
  exec, file, gcp_oauth_token, oidc_token, Auth, no_auth, basic, bearer, refreshable, new_file,
  certificate, remembering, auth_of_provider, from_exec, from_password, from_provider,
}

-- A provider whose tokens are of a command.
abbrev pub Commanded : AuthProviderConfig → Type 0
Commanded p = (p.name ≡ "gcp") × (is_some (HashMap.get p.config "cmd-path") ≡ true)

abbrev pub CommandedIf : Option AuthProviderConfig → Type 0
CommandedIf none = Unit
CommandedIf (some p) = p.name ≡ "gcp" → is_some (HashMap.get p.config "cmd-path") ≡ true

-- Credentials that give tokens of a command or of a plugin.
abbrev pub Steady : AuthInfo → Option AuthProviderConfig → Type 0
Steady info (some p) = Commanded p
Steady info none = info.token_file ≡ none

module _ (s : Sources) where
  -- A token of a command, or an error.
  abbrev is_command : Result (Error s) (ProviderToken s) → Bool
  is_command (ok (oidc o)) = false
  is_command (ok (gcp_command_token t e)) = true
  is_command (ok (gcp_oauth g)) = false
  is_command (err e) = true

  is_command-token_in :
      (config : HashMap String String) (output : s.Output) (o : Option String)
      → is_command (token_in s config output o) ≡ true
  unfolding HashMap.get
  is_command-token_in config output o = ground arith

  is_command-run_command :
      (now : ℕ) (config : HashMap String String) (cmd : String)
      → is_command (run_command s now config cmd) ≡ true
  unfolding HashMap.get
  is_command-run_command now config cmd = grind (arith, is_command-token_in config)

  is_command-new_token :
      (now : ℕ) (config : HashMap String String) (o : Option String)
      → is_some o ≡ true
      → is_command (new_token s now config o) ≡ true
  unfolding HashMap.get
  is_command-new_token now config (some cmd) h = is_command-run_command now config cmd
  is_command-new_token now config none h = absurd cc

  is_command-gcp :
      (now : ℕ) (config : HashMap String String) (o : Option String)
      → is_some (HashMap.get config "cmd-path") ≡ true
      → is_command (id_token_or s now config o) ≡ true
  unfolding HashMap.get
  is_command-gcp now config o h =
      ground (arith, is_command-new_token now config (HashMap.get config "cmd-path") h)

  is_command-token_from_provider :
      (now : ℕ) (p : AuthProviderConfig)
      → Commanded p
      → is_command (token_from_provider s now p) ≡ true
  unfolding token_from_provider token_from_gcp_provider
  is_command-token_from_provider now p (gcp, cmd) =
      simp gcp (is_command-gcp now p.config (HashMap.get p.config "id-token") cmd)

  abbrev pub SteadyInfo : AuthInfo → Type 0
  SteadyInfo info = Steady info info.auth_provider

  -- No source but a plugin or a command.
  abbrev pub exec_only : Result (Error s) (Auth s) → Bool
  exec_only (ok (refreshable (exec t e info))) = true
  exec_only (ok (refreshable (file f))) = false
  exec_only (ok (refreshable (gcp_oauth_token g))) = false
  exec_only (ok (refreshable (oidc_token o))) = false
  exec_only _ = true

  -- What a plugin or a command is refreshed from.
  abbrev info_of : AuthInfo → Result (Error s) (Auth s) → AuthInfo
  info_of other (ok (refreshable (exec t e info))) = info
  info_of other _ = other

  -- If it is a plugin or a command, it is one that stays.
  abbrev pub MadeSteady : Result (Error s) (Auth s) → Type 0
  MadeSteady (ok (refreshable (exec t e info))) = SteadyInfo info
  MadeSteady _ = Unit

  info_of-MadeSteady :
      (other : AuthInfo) (r : Result (Error s) (Auth s))
      → SteadyInfo (info_of other r)
      → MadeSteady r
  info_of-MadeSteady other (ok (refreshable (exec t e info))) steady = steady
  info_of-MadeSteady other (ok (refreshable (file f))) steady = tt
  info_of-MadeSteady other (ok (refreshable (gcp_oauth_token g))) steady = tt
  info_of-MadeSteady other (ok (refreshable (oidc_token o))) steady = tt
  info_of-MadeSteady other (ok no_auth) steady = tt
  info_of-MadeSteady other (ok (basic u p)) steady = tt
  info_of-MadeSteady other (ok (bearer t)) steady = tt
  info_of-MadeSteady other (ok (certificate c k)) steady = tt
  info_of-MadeSteady other (err e) steady = tt

  abbrev is_exec : Result (Error s) (Auth s) → Bool
  is_exec (ok (refreshable (exec t e info))) = true
  is_exec _ = false

  other-MadeSteady : (r : Result (Error s) (Auth s)) → is_exec r ≡ false → MadeSteady r
  other-MadeSteady (ok (refreshable (exec t e info))) h = absurd cc
  other-MadeSteady (ok (refreshable (file f))) h = tt
  other-MadeSteady (ok (refreshable (gcp_oauth_token g))) h = tt
  other-MadeSteady (ok (refreshable (oidc_token o))) h = tt
  other-MadeSteady (ok no_auth) h = tt
  other-MadeSteady (ok (basic u p)) h = tt
  other-MadeSteady (ok (bearer t)) h = tt
  other-MadeSteady (ok (certificate c k)) h = tt
  other-MadeSteady (err e) h = tt

  exec_only-from_exec :
      (now : ℕ) (info : AuthInfo) (o : Option ExecConfig)
      → exec_only (from_exec s now info o) ≡ true
  unfolding auth_exec
  exec_only-from_exec now info o = ground arith

  info_of-from_exec :
      (now : ℕ) (info : AuthInfo) (o : Option ExecConfig)
      → info_of info (from_exec s now info o) ≡ info
  unfolding auth_exec
  info_of-from_exec now info o = ground arith

  exec_only-from_password :
      (now : ℕ) (info : AuthInfo) (u p : Option String)
      → info.token_file ≡ none
      → exec_only (from_password s now info u p) ≡ true
  unfolding new_file
  exec_only-from_password now info u p h = ground (arith, exec_only-from_exec now info info.exec)

  info_of-from_password :
      (now : ℕ) (info : AuthInfo) (u p : Option String)
      → info_of info (from_password s now info u p) ≡ info
  unfolding new_file
  info_of-from_password now info u p = ground (arith, info_of-from_exec now info info.exec)

  is_exec-from_password :
      (now : ℕ) (info : AuthInfo) (u p : Option String) {path : String}
      → info.token_file ≡ some path
      → is_exec (from_password s now info u p) ≡ false
  unfolding new_file
  is_exec-from_password now info u p h = ground arith

  steady-none :
      (info : AuthInfo) → info.auth_provider ≡ none → info.token_file ≡ none → SteadyInfo info
  steady-none info h f = simp h f

  password-MadeSteady :
      (now : ℕ) (info : AuthInfo)
      → info.auth_provider ≡ none
      → (o : Option String) → info.token_file ≡ o
      → MadeSteady (from_password s now info info.username info.password)
  password-MadeSteady now info h none f = info_of-MadeSteady info _ (
      subst SteadyInfo (sym (info_of-from_password now info info.username info.password))
        (steady-none info h f))
  password-MadeSteady now info h (some path) f =
      other-MadeSteady _ (is_exec-from_password now info info.username info.password f)

  remembering-Commanded :
      (t : String) (expiry : ℕ) (p : AuthProviderConfig)
      → Commanded p
      → Commanded (remembering s t expiry p)
  unfolding HashMap.insert
  remembering-Commanded t expiry p (gcp, cmd) = (
    gcp,
    rw
        (
          get-insert "expiry" "cmd-path" (s.to_rfc3339 expiry)
              (HashMap.insert "access-token" t p.config),
          get-insert "access-token" "cmd-path" t p.config,
        )
        cmd,
  )

  provided-Steady :
      (info : AuthInfo) (p : AuthProviderConfig) (r : Result (Error s) (ProviderToken s))
      → is_command r ≡ true
      → Commanded p
      → (exec_only (r >>= λ t. ok (auth_of_provider s info p t)) ≡ true)
        × MadeSteady (r >>= λ t. ok (auth_of_provider s info p t))
  unfolding HashMap.insert
  provided-Steady info p (ok (oidc o)) h c = absurd cc
  provided-Steady info p (ok (gcp_command_token t (some e))) h c =
      (refl, remembering-Commanded t e p c)
  provided-Steady info p (ok (gcp_command_token t none)) h c = (refl, tt)
  provided-Steady info p (ok (gcp_oauth g)) h c = absurd cc
  provided-Steady info p (err e) h c = (refl, tt)

  pub provider-Steady :
      (now : ℕ) (info : AuthInfo) (o : Option AuthProviderConfig)
      → info.auth_provider ≡ o
      → Steady info o
      → (exec_only (from_provider s now info o) ≡ true) × MadeSteady (from_provider s now info o)
  unfolding token_from_provider HashMap.insert
  provider-Steady now info (some p) h steady =
      provided-Steady info p (token_from_provider s now p)
        (is_command-token_from_provider now p steady) steady
  provider-Steady now info none h steady = (
    exec_only-from_password now info info.username info.password steady,
    password-MadeSteady now info h none steady,
  )

  is_exec-other_provider :
      (now : ℕ) (info : AuthInfo) (p : AuthProviderConfig)
      → (p.name == "gcp") ≡ false
      → is_exec (from_provider s now info (some p)) ≡ false
  unfolding token_from_provider HashMap.insert
  is_exec-other_provider now info p h = ground arith

  pub made-Steady :
      (now : ℕ) (info : AuthInfo) (o : Option AuthProviderConfig)
      → info.auth_provider ≡ o
      → CommandedIf o
      → MadeSteady (from_provider s now info o)
  unfolding token_from_provider HashMap.insert
  made-Steady now info (some p) h c = elim (Bool-cases (p.name == "gcp")) [
    | inl g ↦
        let gcp = (string_iff p.name "gcp").0 g in
        (provider-Steady now info (some p) h (gcp, c gcp)).1
    | inr g ↦ other-MadeSteady _ (is_exec-other_provider now info p g)
  ]
  made-Steady now info none h c = password-MadeSteady now info h info.token_file refl
