-- ===== src/Pipeline.antt =====
-- The document pipeline as the browser sees it: the store of frontend/src/store/pipelineStore.ts
-- and the step labels of frontend/src/lib/pipeline-phases.ts.
pub mod Types
pub mod Store
pub mod Hydrate
pub mod Actions
pub mod Summary
pub mod Phases
mod Tests
