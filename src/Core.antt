-- ===== src/Core.antt =====
-- kube-core/src: the data that the clients and the runtime share.
pub mod Resource
pub mod Query
pub mod ListParams
pub mod WatchParams
pub mod Roundtrip
pub mod PatchParams
pub mod Patching
pub mod Version
pub mod Gvk
pub mod Discovery
pub mod DeleteParams
pub mod Request
pub mod Subresource
