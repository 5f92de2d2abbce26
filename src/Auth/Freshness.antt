-- ===== src/Auth/Freshness.antt =====
-- How old the token of a file is, in kube-client/src/client/auth/mod.rs.
use kube.Prelude.{
  ℕ, ◌+◌, ◌≤◌, ◌≡◌, refl, sym, ap, subst, ◌∙◌, Option, none, some, String, Result, ok, err, ◌>>=◌,
  inl, inr, Bool-cases, arith,
}
use kube.Config.Files.{map_err}
use kube.Auth.Sources.{Sources, Error, read_token_file}
use kube.Auth.Token.{TokenFile, is_expiring, cached_token, new_file, token, reloaded, file}
use kube.Auth.Header.{Answer, bearer_header, header_of_file, to_header}

abbrev unwrap_or_other {ℓ κ} : {E : Type ℓ} {A : Type κ} → A → Result E A → A
unwrap_or_other other (ok a) = a
unwrap_or_other other (err e) = other

module _ (s : Sources) where
  -- A text is what the file held at a time, if it could be read then, and was read from it at some time.
  abbrev pub Read : String → ℕ → String → Type 0
  Read path r t =
      ((text : String) → s.read_to_string r path ≡ ok text → t ≡ text)
      × (q : ℕ) × (s.read_to_string q path ≡ ok t)

  -- What holds of a token file: it was last tried to be read a minute before its expiry.
  abbrev pub Kept : String → TokenFile → Type 0
  Kept path f = (f.path ≡ path) × (r : ℕ) × (f.expires_at ≡ r + 60) × Read path r f.token

  -- A token that was last tried to be read fifty seconds ago at most.
  abbrev pub Fresh : String → ℕ → String → Type 0
  Fresh path now t = (r : ℕ) × (now ≤ r + 50) × Read path r t

  reloaded-Read :
      (path : String) (r later : ℕ) (t : String) (x : Result s.IoError String)
      → s.read_to_string later path ≡ x
      → Read path r t
      → Read path later (reloaded s x t)
  reloaded-Read path r later t (ok text) h (same, q, ever) =
      (λ text' h'. ap (λ x. reloaded s x t) (sym h ∙ h'), later, h)
  reloaded-Read path r later t (err e) h (same, q, ever) = (λ text' h'. absurd cc, q, ever)

  token-Kept :
      (path : String) (now later : ℕ) (f : TokenFile)
      → Kept path f
      → Kept path (token s now later f)
  unfolding token
  token-Kept path now later f (p, r, e, read) = elim (Bool-cases (is_expiring now f)) [
    | inl h ↦ simp h (
      p,
      later,
      refl,
      reloaded-Read path r later f.token (s.read_to_string later f.path)
          (ap (s.read_to_string later) (sym p)) read,
    )
    | inr h ↦ simp h (p, r, e, read)
  ]

  -- The expiry of a token that is not reloaded is far enough, and a token that is was just tried to be read.
  token-Fresh :
      (path : String) (start now later : ℕ) (f : TokenFile)
      → start ≤ now
      → now ≤ later
      → Kept path f
      → Fresh path start (token s now later f).token
  unfolding token
  token-Fresh path start now later f le le' (p, r, e, read) =
      elim (Bool-cases (is_expiring now f)) [
        | inl h ↦ simp h (
          later,
          omega arith,
          reloaded-Read path r later f.token (s.read_to_string later f.path)
              (ap (s.read_to_string later) (sym p)) read,
        )
        | inr h ↦ simp h (r, ground arith, read)
      ]

  -- The answer has the header of a fresh token, and the file is kept.
  abbrev pub FreshAnswer : String → ℕ → Answer s → Type 0
  FreshAnswer path now answer =
      (t : String) × (f : TokenFile) × (answer ≡ ok (bearer_header s t, file f))
      × Fresh path now t
      × Kept path f

  header_of_file-Fresh :
      (path : String) (clock : ℕ → ℕ) (f : TokenFile) (o : Option String)
      → cached_token (clock 0) f ≡ o
      → clock 0 ≤ clock 1
      → clock 1 ≤ clock 2
      → Kept path f
      → FreshAnswer path (clock 0) (header_of_file s f clock o)
  unfolding cached_token token
  header_of_file-Fresh path clock f none h le le' kept = (
    _,
    _,
    refl,
    token-Fresh path (clock 0) (clock 1) (clock 2) f le le' kept,
    token-Kept path (clock 1) (clock 2) f kept,
  )
  header_of_file-Fresh path clock f (some t) h le le' (p, r, e, read) =
      let same : f.token ≡ t = ground arith in
      (t, f, refl, (r, ground arith, subst (Read path r) same read), (p, r, e, read))

  loaded-Kept :
      {E : Type 0} (g : s.IoError → E) (now : ℕ) (path : String) (f : TokenFile)
      (x : Result s.IoError String)
      → s.read_to_string now path ≡ x
      → (map_err g x >>= λ t. ok (record { path = path; token = t; expires_at = now + 60 })) ≡ ok f
      → Kept path f
  loaded-Kept g now path f (ok t) h e =
      subst (Kept path) (ap (unwrap_or_other f) e)
        (refl, now, refl, ((λ text h'. ap (λ x. reloaded s x t) (sym h ∙ h')), now, h))
  loaded-Kept g now path f (err x) h e = absurd cc

  -- A file that was loaded, and then used for headers while the clock did not go back.
  pub data Used : String → TokenFile → Type 0 where
    loaded : (now : ℕ) (path : String) (f : TokenFile) → new_file s now path ≡ ok f → Used path f
    used :
        (clock : ℕ → ℕ) (path : String) (f f' : TokenFile) (h : Result (Error s) s.HeaderValue)
        → clock 0 ≤ clock 1
        → clock 1 ≤ clock 2
        → Used path f
        → to_header s clock (file f) ≡ ok (h, file f')
        → Used path f'

  to_header-Kept :
      (path : String) (clock : ℕ → ℕ) (f : TokenFile)
      → clock 0 ≤ clock 1
      → clock 1 ≤ clock 2
      → Kept path f
      → FreshAnswer path (clock 0) (to_header s clock (file f))
  unfolding to_header
  to_header-Kept path clock f le le' kept =
      header_of_file-Fresh path clock f (cached_token (clock 0) f) refl le le' kept

  -- What an answer leaves, if it is a file.
  abbrev left : TokenFile → Answer s → TokenFile
  left old (ok (h, file f)) = f
  left old _ = old

  Used-Kept : (path : String) (f : TokenFile) → Used path f → Kept path f
  unfolding new_file
  Used-Kept _ _ (loaded now path f h) =
      loaded-Kept {E = Error s} (λ e. read_token_file e path) now path f (s.read_to_string now path)
        refl h
  Used-Kept _ _ (used clock path f f' h le le' before e) =
      let (t, f'', same, fresh, kept) =
        to_header-Kept path clock f le le' (Used-Kept path f before) in
      subst (Kept path) (ap (left f) (sym same ∙ e)) kept

  -- The header for a token file, however often it was used before, is made of a token that the file
  -- was last tried to be read for fifty seconds before at most: it is what the file held then, if it
  -- could be read, and in any case a text that was read from it. The clock does not go back.
  pub to_header-Fresh :
      (path : String) (clock : ℕ → ℕ) (f : TokenFile)
      → Used path f
      → clock 0 ≤ clock 1
      → clock 1 ≤ clock 2
      → FreshAnswer path (clock 0) (to_header s clock (file f))
  to_header-Fresh path clock f before le le' =
      to_header-Kept path clock f le le' (Used-Kept path f before)
