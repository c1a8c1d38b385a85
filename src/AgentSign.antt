-- ===== src/AgentSign.antt =====
-- internal/agentsign: requests that berth signs and responses that the agent signs.
pub mod Canonical
pub mod Nonces
pub mod Crypto
pub mod Verifier
pub mod Frames
pub mod BodyFrames
pub mod Responder
pub mod Body
pub mod Middleware
mod Tests
