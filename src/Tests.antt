-- ===== src/Tests.antt =====
-- Runs of the modelled code on concrete inputs, and the theorems at such inputs.
mod Data
mod Paths
mod Merges
mod Environments
mod Diffs
mod Tracking
mod Composing
mod Loading
mod Reloading
mod Dotenvs
mod Accesses
mod Hooks
mod Secrets
mod Mutations
mod Overrides
mod Stores
mod Retained
mod Materials
