-- ===== src/Auth.antt =====
-- The session of the browser: the stored tokens (frontend/src/store/authStore.ts), their refresh
-- (frontend/src/lib/authClient.ts) and the requests that use them (frontend/src/lib/api.ts).
pub mod Store
pub mod Refresh
pub mod Request
pub mod Pending
mod Tests
