-- ===== src/Ledger.antt =====
-- src/ledgergate/ledger: the deterministic core.
pub mod Identifiers
pub mod Fraction
pub mod Currency
pub mod Money
pub mod Accounts
pub mod Postings
pub mod Encoding
pub mod Lifecycle
pub mod Commands
pub mod Checks
pub mod State
pub mod EntryEq
pub mod Verify
pub mod Balance
pub mod Steps
pub mod Chart
pub mod Integrity
pub mod Reach
pub mod Idempotency
pub mod Books
pub mod TrialBalance
pub mod Funds
pub mod LifecycleLaws
pub mod Transactions
mod Tests
pub mod Samples
pub mod Handlers
pub mod Allocation
pub mod AllocationLaws
pub mod Rounding
pub mod RoundingLaws
pub mod Sources
pub mod SourcesLaws
pub mod Conversion
pub mod Fx
pub mod FxLaws
pub mod History
mod Amounts
pub mod Parsing
pub mod Injective
