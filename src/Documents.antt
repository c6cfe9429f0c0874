-- ===== src/Documents.antt =====
-- The documents of a project on its cockpit.
pub mod Panel
pub mod Deletion
mod Tests
