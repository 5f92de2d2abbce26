-- ===== src/Streams.antt =====
-- kube-runtime/src/utils: adapters of watch streams. A stream is what its polls will answer.
pub mod Split
pub mod Modify
pub mod Flatten
pub mod Predicate
pub mod Passing
pub mod Backoff
pub mod ResetTimer
