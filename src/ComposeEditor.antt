-- ===== src/ComposeEditor.antt =====
-- internal/composeeditor: edits of the YAML tree of a compose file.
pub mod Nodes
pub mod Config
pub mod Builders
pub mod Sections
pub mod Services
pub mod Lifecycle
pub mod Document
pub mod Layout
mod Tests
