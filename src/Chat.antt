-- ===== src/Chat.antt =====
-- The chat of the browser: the blocks of an assistant turn (frontend/src/lib/chatBlocks.ts) and the
-- stream of an answer (frontend/src/hooks/useChatStream.ts).
pub mod Types
pub mod Blocks
pub mod Stream
pub mod Session
pub mod Slash
pub mod Input
mod Tests
