-- ===== src/Config/Files.antt =====
-- How kube-client/src/config/file_config.rs reads kubeconfigs: documents, files, and `$KUBECONFIG`.
use kube.Prelude.{
  Option, none, some, List, [], ◌∷◌, map, String, if◌then◌else◌, Result, ok, err, ◌>>=◌,
}
use kube.Config.Kubeconfig.{
  Kubeconfig, NamedCluster, NamedAuthInfo, Cluster, AuthInfo, no_kubeconfig,
}
use kube.Config.Outside.{Outside, KubeconfigError, find_path, read_config, parse, invalid_structure}
use kube.Config.Merge.{merge}

abbrev pub map_err {ℓ} : {D E : Type 0} {A : Type ℓ} → (D → E) → Result D A → Result E A
map_err f (ok a) = ok a
map_err f (err e) = err (f e)

-- `try_fold`.
abbrev pub try_fold {ℓ κ} :
    {A : Type ℓ} {B : Type κ} {E : Type 0} → (B → A → Result E B) → B → List A → Result E B
try_fold f b [] = ok b
try_fold f b (x ∷ xs) = f b x >>= λ c. try_fold f c xs

module _ (o : Outside) where
  -- `kubeconfig_from_yaml`.
  abbrev pub read_documents :
      List (Result o.YamlError o.YamlValue) → Result (KubeconfigError o) (List (Kubeconfig o.Json))
  read_documents [] = ok []
  read_documents (doc ∷ docs) = do
    value ← map_err parse doc
    kubeconfig ← map_err invalid_structure (o.from_value value)
    rest ← read_documents docs
    ok (kubeconfig ∷ rest)

  abbrev pub kubeconfig_from_yaml : String → Result (KubeconfigError o) (List (Kubeconfig o.Json))
  kubeconfig_from_yaml text = read_documents (o.documents text)

  unfoldable pub from_yaml : String → Result (KubeconfigError o) (Kubeconfig o.Json)
  from_yaml text = do
    documents ← kubeconfig_from_yaml text
    try_fold (merge o) no_kubeconfig documents

  abbrev pub to_absolute : o.FilePath → String → Option String
  to_absolute dir file =
      if o.is_relative (o.path file) then o.to_str (o.join dir (o.path file)) else none

  abbrev pub absolute_or : String → Option String → String
  absolute_or file none = file
  absolute_or file (some abs_path) = abs_path

  -- A path that is there is made absolute, where this is possible.
  abbrev pub remap_path : o.FilePath → Option String → Option String
  remap_path dir none = none
  remap_path dir (some file) = some (absolute_or file (to_absolute dir file))

  abbrev pub remap_cluster : o.FilePath → Option (Cluster o.Json) → Option (Cluster o.Json)
  remap_cluster dir none = none
  remap_cluster dir (some cluster) =
      some (record cluster { certificate_authority = remap_path dir cluster.certificate_authority })

  abbrev pub remap_auth_info : o.FilePath → Option AuthInfo → Option AuthInfo
  remap_auth_info dir none = none
  remap_auth_info dir (some auth_info) = some (record auth_info {
    client_certificate = remap_path dir auth_info.client_certificate;
    client_key = remap_path dir auth_info.client_key;
    token_file = remap_path dir auth_info.token_file;
  })

  -- The paths of a kubeconfig are relative to the directory of its file.
  abbrev pub remap : Option o.FilePath → Kubeconfig o.Json → Kubeconfig o.Json
  remap none config = config
  remap (some dir) config = record config {
    clusters =
        map (λ (n : NamedCluster o.Json). record n { cluster = remap_cluster dir n.cluster })
          config.clusters;
    auth_infos =
        map (λ (n : NamedAuthInfo). record n { auth_info = remap_auth_info dir n.auth_info })
          config.auth_infos;
  }

  abbrev pub merge_into :
      Option (Kubeconfig o.Json)
      → Kubeconfig o.Json
      → Result (KubeconfigError o) (Option (Kubeconfig o.Json))
  merge_into none config = ok (some config)
  merge_into (some c) config = merge o c config >>= λ merged. ok (some merged)

  abbrev pub unwrap_or_default : Option (Kubeconfig o.Json) → Kubeconfig o.Json
  unwrap_or_default none = no_kubeconfig
  unwrap_or_default (some c) = c

  unfoldable pub read_from : o.FilePath → Result (KubeconfigError o) (Kubeconfig o.Json)
  read_from path = do
    text ← map_err (λ source. read_config source path) (o.read_to_string path)
    configs ← kubeconfig_from_yaml text
    merged_docs ← try_fold merge_into none (map (remap (o.parent path)) configs)
    ok (unwrap_or_default merged_docs)

  abbrev pub nonempty_paths : List o.FilePath → List o.FilePath
  nonempty_paths [] = []
  nonempty_paths (p ∷ paths) =
      let rest = nonempty_paths paths in if o.is_empty p then rest else p ∷ rest

  abbrev pub read_and_merge :
      Kubeconfig o.Json → o.FilePath → Result (KubeconfigError o) (Kubeconfig o.Json)
  unfolding read_from
  read_and_merge m p = read_from p >>= λ c. merge o m c

  abbrev pub merge_paths : List o.FilePath → Result (KubeconfigError o) (Option (Kubeconfig o.Json))
  merge_paths [] = ok none
  merge_paths paths = try_fold read_and_merge no_kubeconfig paths >>= λ merged. ok (some merged)

  abbrev pub paths_of : Option o.OsString → List o.FilePath
  paths_of none = []
  paths_of (some value) = nonempty_paths (o.split_paths value)

  unfoldable pub from_env : Result (KubeconfigError o) (Option (Kubeconfig o.Json))
  from_env = merge_paths (paths_of (o.var_os "KUBECONFIG"))

  abbrev pub default_kube_path : Option o.FilePath → Option o.FilePath
  default_kube_path none = none
  default_kube_path (some h) = some (o.join (o.join h (o.path ".kube")) (o.path "config"))

  abbrev pub read_default : Option o.FilePath → Result (KubeconfigError o) (Kubeconfig o.Json)
  unfolding read_from
  read_default none = err find_path
  read_default (some path) = read_from path

  abbrev pub config_or_default :
      Option (Kubeconfig o.Json) → Result (KubeconfigError o) (Kubeconfig o.Json)
  config_or_default (some config) = ok config
  config_or_default none = read_default (default_kube_path o.home_dir)

  unfoldable pub read : Result (KubeconfigError o) (Kubeconfig o.Json)
  unfolding from_env
  read = from_env >>= config_or_default
