-- ===== src/Examples.antt =====
-- The theorems at concrete inputs, and tests.
mod Scheduling
mod Running
mod Watching
mod Calling
mod Finalizing
mod Adapting
mod Configuring
mod Controlling
mod Applying
mod Authorizing
mod Versions
mod Requesting
mod Committing
mod Discovering
