-- ===== src/Cockpit.antt =====
-- The cockpit of a project, frontend/src/components/cockpit/CockpitLayout.tsx.
pub mod Commands
pub mod View
pub mod Drag
mod Tests
