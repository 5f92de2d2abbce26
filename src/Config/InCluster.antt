-- ===== src/Config/InCluster.antt =====
-- kube-client/src/config/incluster_config.rs: where the API of a cluster is, and the files of a service
-- account.
use kube.Prelude.{ℕ, Option, none, some, List, String, ◌+++◌, nat_beq, if◌then◌else◌, Result, ◌>>=◌}
use kube.Config.Outside.{Outside}
use kube.Config.Files.{map_err}
use kube.Config.Credentials.{certs}

pub data InClusterError (o : Outside) : Type 0 where
  read_default_namespace : o.IoError → InClusterError o
  read_environment_variable : o.VarError → InClusterError o
  read_certificate_bundle : o.IoError → InClusterError o
  parse_cluster_port : o.ParseIntError → InClusterError o
  parse_cluster_url : o.InvalidUri → InClusterError o
  parse_certificates : o.PemError → InClusterError o

module _ (o : Outside) where
  abbrev address_text : Option o.IpAddr → String → ℕ → String
  address_text (some ip) host port =
      if nat_beq port 443
      then (if o.is_ipv6 ip
          then "https://[" +++ o.show_ip ip +++ "]"
          else "https://" +++ o.show_ip ip)
      else "https://" +++ o.show_socket ip port
  address_text none host port =
      if nat_beq port 443
      then "https://" +++ host
      else "https://" +++ host +++ ":" +++ o.show_port port

  unfoldable pub try_uri : String → ℕ → Result (InClusterError o) o.Uri
  try_uri host port =
      map_err parse_cluster_url (o.parse_uri (address_text (o.parse_ip host) host port))

  unfoldable pub try_kube_from_env : Result (InClusterError o) o.Uri
  unfolding try_uri
  try_kube_from_env = do
    host ← map_err read_environment_variable (o.var "KUBERNETES_SERVICE_HOST")
    text ← map_err read_environment_variable (o.var "KUBERNETES_SERVICE_PORT")
    port ← map_err parse_cluster_port (o.parse_u16 text)
    try_uri host port

  unfoldable pub load_cert : Result (InClusterError o) (List (List ℕ))
  unfolding certs
  load_cert = do
    bytes ←
        map_err read_certificate_bundle
          (o.read (o.path "/var/run/secrets/kubernetes.io/serviceaccount/ca.crt"))
    map_err parse_certificates (certs o bytes)

  unfoldable pub load_default_ns : Result (InClusterError o) String
  load_default_ns =
      map_err read_default_namespace
        (o.read_to_string (o.path "/var/run/secrets/kubernetes.io/serviceaccount/namespace"))

abbrev pub token_file : String
token_file = "/var/run/secrets/kubernetes.io/serviceaccount/token"
