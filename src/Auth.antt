-- ===== src/Auth.antt =====
-- internal/auth: what the scopes of a token allow, and the list of revoked tokens.
pub mod Scopes
pub mod Revocation
mod Examples
