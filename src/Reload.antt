-- ===== src/Reload.antt =====
-- config_reload.go, config_extend.go and config_source_transaction.go: a reload of the
-- sources and the addition of one, on a private candidate that is then published. What the loaders
-- return, the disk, the resolution by the hooks, the validators, the watcher and the context are
-- parameters. Metrics and events are left out.
pub mod Prepare
pub mod Extend
pub mod Publish
pub mod Fresh
pub mod Quiet
pub mod Safety
pub mod DryRun
