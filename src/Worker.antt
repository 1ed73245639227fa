-- ===== src/Worker.antt =====
-- The portable worker: its asset cache and its recovery from a lost device.
pub mod AssetCache
pub mod Recovery
pub mod AssetFetch
