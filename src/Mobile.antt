-- ===== src/Mobile.antt =====
-- internal/mobile/state: the native app's store, its setters, and the reducer of inbound envelopes.
pub mod State
pub mod Actions
pub mod Chunks
pub mod Turns
pub mod Ingest
pub mod Bounds
pub mod Streaming
pub mod Queues
mod Examples
