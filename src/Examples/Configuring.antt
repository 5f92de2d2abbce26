-- ===== src/Examples/Configuring.antt =====
-- Inputs for the theorems about kube-client/src/config.
use kube.Prelude.{
  ℕ, refl, true, false, none, some, [], ◌∷◌, String, ◌==◌, string_eq, if◌then◌else◌, is_empty_text,
  ◌+++◌, ok, err,
}
use kube.Config.Kubeconfig.{Kubeconfig, AuthInfo, no_auth_info, no_kubeconfig}
use kube.Config.Outside.{Outside}
use kube.Config.Merge.{merge, joined}
use kube.Config.Merging.{Merged, merge-Merged}
use kube.Config.Loader.{load}
use kube.Config.Loading.{Stays, load-merge}
use kube.Config.Credentials.{load_certificate, load_key, identity_pem}
use kube.Config.Pem.{Separated, identity_pem-Separated}

abbrev work : Kubeconfig ℕ
work = record no_kubeconfig {
  kind = some "Config";
  current_context = some "work";
  contexts =
      record {
        name = "work";
        context = some (record { cluster = "a"; user = "me"; namespace = none; extensions = none });
      }
      ∷ [];
  clusters =
      record {
        name = "a";
        cluster = some (record {
          server = some "https://a";
          insecure_skip_tls_verify = none;
          certificate_authority = some "ca";
          certificate_authority_data = none;
          proxy_url = none;
          tls_server_name = none;
          extensions = none;
        });
      }
      ∷ [];
}

abbrev me : AuthInfo
me = record no_auth_info { client_certificate_data = some "cert"; client_key = some "key" }

abbrev users : Kubeconfig ℕ
users = record no_kubeconfig {
  current_context = some "home";
  auth_infos = record { name = "me"; auth_info = some me } ∷ [];
}

abbrev alien : Kubeconfig ℕ
alien = record no_kubeconfig { kind = some "List" }

-- Two files, of two documents and one.
abbrev desk : Outside
desk = record {
  FilePath = String;
  path = λ p. p;
  parent = λ p. some "/etc";
  is_relative = λ p. true;
  is_empty = is_empty_text;
  join = λ d p. d +++ "/" +++ p;
  to_str = some;
  IoError = ℕ;
  read = λ p. if p == "key" then ok (7 ∷ []) else err 2;
  read_to_string = λ p. ok p;
  VarError = ℕ;
  OsString = String;
  var_os = some;
  var = λ v. err 0;
  split_paths = λ s. "one" ∷ "" ∷ "two" ∷ [];
  home_dir = none;
  Json = ℕ;
  YamlError = ℕ;
  YamlValue = Kubeconfig ℕ;
  documents = λ text. if text == "one" then ok work ∷ ok no_kubeconfig ∷ [] else ok users ∷ [];
  from_value = ok;
  DecodeError = ℕ;
  decode = λ s. ok (1 ∷ 2 ∷ []);
  PemError = ℕ;
  parse_many = λ bytes. err 1;
  Uri = String;
  InvalidUri = ℕ;
  parse_uri = ok;
  kube_dns = "https://kubernetes.default.svc/";
  ParseIntError = ℕ;
  parse_u16 = λ s. ok 443;
  IpAddr = ℕ;
  parse_ip = λ s. none;
  is_ipv6 = λ a. false;
  show_ip = λ a. "";
  show_socket = λ a p. "";
  show_port = λ p. "";
}

merge-Merged_example : Merged desk work users (merge desk work users)
merge-Merged_example = merge-Merged desk work users

load-merge_example :
    Stays
      (load desk (joined work users) none none none)
      (load desk (joined (joined work users) no_kubeconfig) none none none)
unfolding merge
load-merge_example =
    load-merge desk (joined work users) no_kubeconfig (joined (joined work users) no_kubeconfig)
      none none none refl

identity_pem-Separated_example :
    Separated (load_certificate desk me) (load_key desk me) (identity_pem desk me)
identity_pem-Separated_example = identity_pem-Separated desk me
