-- ===== src/Session.antt =====
-- internal/session: the replay buffer of a session, and the store that sessions live in.
pub mod RingBuffer
pub mod Store
mod Examples
