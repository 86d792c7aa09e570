-- ===== src/Journal.antt =====
-- src/ledgergate/journal: policies, approvals and the durable record of every attempt.
pub mod Policy
pub mod Decide
pub mod PolicyLaws
pub mod Approvals
pub mod Tables
pub mod PolicySet
pub mod Session
pub mod Rows
pub mod Invocations
pub mod Write
pub mod Attempt
pub mod Context
pub mod Commit
pub mod Chains
pub mod Rebuild
pub mod Again
pub mod ReplayLaws
pub mod ChainLaws
pub mod ApprovalLaws
pub mod Histories
pub mod WriteLaws
pub mod Registry
pub mod RegistryLaws
pub mod Reads
pub mod Bounds
mod Tests
pub mod StoreSamples
mod StoreTests
mod RegistryTests
