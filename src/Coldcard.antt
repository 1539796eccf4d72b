-- ===== src/Coldcard.antt =====
-- bhwi/src/coldcard: the client side of the Coldcard protocol.
pub mod Bitcoin
pub mod Request
pub mod Response
pub mod Encrypt
pub mod Machine
pub mod Convert
