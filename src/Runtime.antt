-- ===== src/Runtime.antt =====
-- The part of the Config type that its mutations change: config.go, config_runtime_mutation.go,
-- config_mutation.go, config_override.go, config_sensitive.go, config_lifecycle.go and the rollback of
-- config_observe.go. A mutation is the sections of its code that run under the lock, between which
-- other operations may run. The work outside the lock is a parameter: what the hooks make of a value,
-- and the validators. The context's errors are Booleans, one for each poll. Metrics and events are
-- left out.
pub mod State
pub mod Sensitive
pub mod Candidates
pub mod Sets
pub mod Overrides
pub mod Restores
pub mod Rollback
pub mod Refresh
pub mod Atomic
pub mod Serial
pub mod Ends
pub mod Marked
pub mod Kept
pub mod Scopes
