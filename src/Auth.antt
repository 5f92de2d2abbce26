-- ===== src/Auth.antt =====
-- kube-client/src/client/auth/mod.rs: the credentials of a client, from its configuration.
pub mod Sources
pub mod Exec
pub mod Provider
pub mod Token
pub mod Header
pub mod Freshness
pub mod Steady
pub mod Lasting
