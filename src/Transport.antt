-- ===== src/Transport.antt =====
-- The transports of bhwi-async/src/transport.
pub mod LedgerHid
pub mod ColdcardHid
pub mod BitBoxHid
