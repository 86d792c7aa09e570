-- ===== src/Codec.antt =====
-- src/ledgergate/codec: the JSON forms that the layers above the ledger share.
pub mod Json
pub mod Draft
pub mod Command
pub mod RoundTrip
pub mod CommandTrip
pub mod Requests
pub mod Samples
mod Tests
