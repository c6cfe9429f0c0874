-- ===== src/Events.antt =====
-- The project's event stream in the browser (frontend/src/hooks/useProjectSSE.ts): what each event
-- does to the pipeline store, and the loop that keeps the connection.
pub mod Types
pub mod Handle
pub mod Dispatch
pub mod Switch
pub mod Connect
pub mod Effect
mod Tests
