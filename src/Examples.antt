-- ===== src/Examples.antt =====
-- The theorems at concrete inputs.
pub mod Fixtures
pub mod Strategies
pub mod Periods
pub mod Clusters
pub mod Reconciliations
pub mod Flows
pub mod FlowChildren
pub mod Webhooks
pub mod Instances
pub mod Conversions
pub mod FlowReconciliations
pub mod Stores
pub mod Adapters
