-- ===== src/Tests.antt =====
-- The theorems at concrete inputs, and runs of the model on inputs of the repository's tests.
mod Varint
mod Primitives
mod U2f
mod Merkle
mod Apdu
mod Store
mod Transport
mod Ledger
mod Coldcard
mod Policies
mod LedgerInterpreter
mod Jade
mod Driver
mod ColdcardConvert
