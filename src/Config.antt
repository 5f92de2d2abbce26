-- ===== src/Config.antt =====
-- kube-client/src/config: the configuration of a client, from kubeconfig files and from a cluster.
pub mod Kubeconfig
pub mod Outside
pub mod Merge
pub mod Named
pub mod Merging
pub mod Files
pub mod Folding
pub mod Reading
pub mod Loader
pub mod Credentials
pub mod InCluster
pub mod Client
pub mod Loading
pub mod Pem
