-- ===== src/Operations.antt =====
-- internal/operations: requests for operations on a stack, and the streams of their output.
pub mod Options
pub mod Request
pub mod Command
pub mod Broadcaster
pub mod Tracking
pub mod Archives
mod Tests
