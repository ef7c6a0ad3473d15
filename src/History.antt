-- ===== src/History.antt =====
-- internal/history: the buffer of pinned files.
pub mod Pins
mod Examples
