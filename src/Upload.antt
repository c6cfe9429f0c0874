-- ===== src/Upload.antt =====
-- The upload of a document: what the client makes of the server's answer
-- (frontend/src/lib/upload.ts), and what the user is shown (frontend/src/lib/uploadFlow.ts).
pub mod Response
pub mod Flow
pub mod DropZone
mod Tests
