-- ===== src/BitBox.antt =====
-- The BitBox02 parts of the core crate: bhwi/src/bitbox.
pub mod U2f
