-- ===== src/Reflector.antt =====
-- kube-runtime/src/reflector: a cache of objects that follows a stream of events.
pub mod ObjectRef
pub mod Store
pub mod DelayedInit
