-- ===== src/Archive.antt =====
-- internal/archive: the options of the archive commands, and the paths that an archive may write.
pub mod Options
pub mod Service
mod Tests
