-- ===== src/Shortcuts.antt =====
-- The keyboard shortcuts: their table (frontend/src/lib/keybindings.ts), their handler
-- (frontend/src/hooks/useGlobalKeybindings.ts) and the overlays (frontend/src/store/uiStore.ts).
pub mod Ui
pub mod Keys
mod Tests
