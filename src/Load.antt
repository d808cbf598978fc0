-- ===== src/Load.antt =====
-- config_load.go, config_environment_strategy.go, config_copy.go and context.go: what a load makes of
-- the sources of a Config. What a loader returns, the composition's surroundings and the errors of the
-- context are parameters, given for each loader. Log records come back as a list.
pub mod Strategy
pub mod Conflicts
pub mod Turns
pub mod Plan
pub mod Selected
pub mod Incremental
pub mod Settled
pub mod Repeated
pub mod Mixed
pub mod Hybrid
pub mod Writers
