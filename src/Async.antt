-- ===== src/Async.antt =====
-- bhwi-async/src: what drives an interpreter over a transport.
pub mod Driver
