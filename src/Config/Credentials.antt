-- ===== src/Config/Credentials.antt =====
-- The certificates and keys that kube-client/src/config/file_config.rs loads, and the proxy and the
-- certificates of a loader, of file_loader.rs and mod.rs.
use kube.Prelude.{
  ℕ, Bool, false, not, ◌&&◌, Option, none, some, List, [], ◌∷◌, ◌++◌, String, ◌==◌, string_eq,
  if◌then◌else◌, nat_beq, is_empty_text, is_some, Result, ok, err, ◌>>=◌,
}
use kube.Config.Kubeconfig.{Cluster, AuthInfo}
use kube.Config.Outside.{
  Outside, KubeconfigError, LoadDataError, decode_base64, read_file, no_base64_data_or_file,
  load_certificate_authority, load_client_certificate, load_client_key, parse_certificates,
  parse_proxy_url,
}
use kube.Config.Merge.{or}
use kube.Config.Files.{map_err}
use kube.Config.Loader.{ConfigLoader}

abbrev pub last : List ℕ → Option ℕ
last [] = none
last (b ∷ []) = some b
last (b ∷ c ∷ bs) = last (c ∷ bs)

abbrev pub no_newline : Option ℕ → Bool
no_newline none = false
no_newline (some end) = not (nat_beq end b'\n')

unfoldable pub ensure_trailing_newline : List ℕ → List ℕ
ensure_trailing_newline bytes = if no_newline (last bytes) then bytes ++ (b'\n' ∷ []) else bytes

abbrev pub certificates_in : List (String × List ℕ) → List (List ℕ)
certificates_in [] = []
certificates_in ((tag, contents) ∷ ps) =
    let rest = certificates_in ps in if tag == "CERTIFICATE" then contents ∷ rest else rest

abbrev pub nonempty_text : Option String → Option String
nonempty_text none = none
nonempty_text (some s) = if is_empty_text s then none else some s

abbrev pub ok_of {ℓ} : {A : Type ℓ} {E : Type 0} → Result E A → Option A
ok_of (ok a) = some a
ok_of (err e) = none

module _ (o : Outside) where
  abbrev pub load_data : Option String → Option String → Result (LoadDataError o) (List ℕ)
  load_data (some value) file = map_err decode_base64 (o.decode value)
  load_data none (some file) =
      map_err (λ source. read_file source (o.path file)) (o.read (o.path file))
  load_data none none = err no_base64_data_or_file

  unfoldable pub load_from_base64_or_file :
      Option String → Option String → Result (LoadDataError o) (List ℕ)
  unfolding ensure_trailing_newline
  load_from_base64_or_file value file =
      load_data value file >>= λ bytes. ok (ensure_trailing_newline bytes)

  unfoldable pub load_authority : Cluster o.Json → Result (KubeconfigError o) (Option (List ℕ))
  unfolding load_from_base64_or_file
  load_authority cluster =
      if not (is_some cluster.certificate_authority)
        && not (is_some cluster.certificate_authority_data)
      then ok none
      else map_err load_certificate_authority (
          load_from_base64_or_file cluster.certificate_authority_data cluster.certificate_authority)
        >>= λ ca. ok (some ca)

  unfoldable pub load_certificate : AuthInfo → Result (KubeconfigError o) (List ℕ)
  unfolding load_from_base64_or_file
  load_certificate auth_info =
      map_err load_client_certificate
        (load_from_base64_or_file auth_info.client_certificate_data auth_info.client_certificate)

  unfoldable pub load_key : AuthInfo → Result (KubeconfigError o) (List ℕ)
  unfolding load_from_base64_or_file
  load_key auth_info =
      map_err load_client_key
        (load_from_base64_or_file auth_info.client_key_data auth_info.client_key)

  unfoldable pub identity_pem : AuthInfo → Result (KubeconfigError o) (List ℕ)
  unfolding load_certificate load_key
  identity_pem auth_info = do
    client_cert ← load_certificate auth_info
    client_key ← load_key auth_info
    ok (client_key ++ client_cert)

  unfoldable pub certs : List ℕ → Result o.PemError (List (List ℕ))
  certs bytes = o.parse_many bytes >>= λ ps. ok (certificates_in ps)

  abbrev pub parsed_bundle : Option (List ℕ) → Result (KubeconfigError o) (Option (List (List ℕ)))
  unfolding certs
  parsed_bundle none = ok none
  parsed_bundle (some bundle) = map_err parse_certificates (certs bundle) >>= λ cs. ok (some cs)

  unfoldable pub ca_bundle :
      ConfigLoader o.Json → Result (KubeconfigError o) (Option (List (List ℕ)))
  unfolding load_authority
  ca_bundle loader = load_authority loader.cluster >>= parsed_bundle

  abbrev pub proxy_uri : Option String → Result (KubeconfigError o) (Option o.Uri)
  proxy_uri none = ok none
  proxy_uri (some proxy) = map_err parse_proxy_url (o.parse_uri proxy) >>= λ uri. ok (some uri)

  unfoldable pub proxy_url : ConfigLoader o.Json → Result (KubeconfigError o) (Option o.Uri)
  proxy_url loader = proxy_uri (
      or (nonempty_text loader.cluster.proxy_url) (
        or (nonempty_text (ok_of (o.var "HTTP_PROXY"))) (
          or (nonempty_text (ok_of (o.var "http_proxy"))) (
            or (nonempty_text (ok_of (o.var "HTTPS_PROXY")))
              (nonempty_text (ok_of (o.var "https_proxy")))))))
