-- ===== src/Config/Pem.antt =====
-- The texts of a key and a certificate that kube-client/src/config/file_config.rs puts together.
use kube.Prelude.{
  ℕ, ◌≡◌, refl, false, some, List, [], ◌∷◌, ◌++◌, ◌⊎◌, inl, inr, Result, ok, err, ◌>>=◌, Bool-cases,
  arith,
}
use kube.Config.Kubeconfig.{AuthInfo}
use kube.Config.Outside.{Outside}
use kube.Config.Files.{map_err}
use kube.Config.Credentials.{
  last, no_newline, ensure_trailing_newline, load_data, load_from_base64_or_file, load_certificate,
  load_key, identity_pem,
}

-- Nothing, or a text whose last line is ended.
abbrev pub Ended : List ℕ → Type 0
Ended bytes = (bytes ≡ []) ⊎ (last bytes ≡ some b'\n')

last-append : (b : ℕ) (bs : List ℕ) (c : ℕ) → last ((b ∷ bs) ++ (c ∷ [])) ≡ some c
last-append b [] c = refl
last-append b (d ∷ bs) c = last-append d bs c

last-ended : (b : ℕ) (bs : List ℕ) → no_newline (last (b ∷ bs)) ≡ false → last (b ∷ bs) ≡ some b'\n'
last-ended b [] h = ground arith
last-ended b (c ∷ bs) h = last-ended c bs h

ensure_trailing_newline-Ended : (bytes : List ℕ) → Ended (ensure_trailing_newline bytes)
unfolding ensure_trailing_newline
ensure_trailing_newline-Ended [] = inl refl
ensure_trailing_newline-Ended (b ∷ bs) = elim (Bool-cases (no_newline (last (b ∷ bs)))) [
  | inl h ↦ rw h (inr (last-append b bs b'\n'))
  | inr h ↦ rw h (inr (last-ended b bs h))
]

module _ {E : Type 0} where
  abbrev AllEnded : Result E (List ℕ) → Type 0
  AllEnded (ok bytes) = Ended bytes
  AllEnded (err e) = Unit

  map_err-AllEnded :
      {D : Type 0} (f : D → E) (r : Result D (List ℕ))
      → AllEnded (map_err f (r >>= λ bytes. ok (ensure_trailing_newline bytes)))
  map_err-AllEnded f (ok bytes) = ensure_trailing_newline-Ended bytes
  map_err-AllEnded f (err e) = tt

  -- A pem is a key with the certificate after it, each of them nothing or lines that are all ended; an
  -- error is that of the certificate or else of the key.
  abbrev pub Separated : Result E (List ℕ) → Result E (List ℕ) → Result E (List ℕ) → Type 0
  Separated cert key (ok pem) =
      (k : List ℕ) × (c : List ℕ) × (key ≡ ok k)
      × (cert ≡ ok c)
      × (pem ≡ k ++ c)
      × Ended k
      × Ended c
  Separated cert key (err e) = (cert ≡ err e) ⊎ ((c : List ℕ) × (cert ≡ ok c) × (key ≡ err e))

  both-Separated :
      (cert key : Result E (List ℕ))
      → AllEnded cert
      → AllEnded key
      → Separated cert key (cert >>= λ c. key >>= λ k. ok (k ++ c))
  both-Separated (ok c) (ok k) p q = (k, c, refl, refl, refl, q, p)
  both-Separated (ok c) (err e) p q = inr (c, refl, refl)
  both-Separated (err e) key p q = inl refl

module _ (o : Outside) where
  -- An identity is the key and then the certificate, and each of them is empty or ends with a newline, so
  -- that no line has parts of both; the error of an identity is that of the certificate, or else of the key.
  pub identity_pem-Separated :
      (auth_info : AuthInfo)
      → Separated (load_certificate o auth_info) (load_key o auth_info) (identity_pem o auth_info)
  unfolding identity_pem load_certificate load_key load_from_base64_or_file
  identity_pem-Separated auth_info =
      both-Separated _ _
        (map_err-AllEnded _
          (load_data o auth_info.client_certificate_data auth_info.client_certificate))
        (map_err-AllEnded _ (load_data o auth_info.client_key_data auth_info.client_key))
