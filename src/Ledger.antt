-- ===== src/Ledger.antt =====
-- The Ledger parts of the core crate: bhwi/src/ledger.
pub mod Merkle
pub mod Apdu
pub mod Consensus
pub mod Store
pub mod Command
pub mod Yield
pub mod Wallet
pub mod Maps
pub mod Psbt
pub mod Interpreter
