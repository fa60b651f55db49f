-- ===== src/Sessions.antt =====
-- internal/sessions: the sessions of the engines.
pub mod Keys
pub mod Examples
pub mod Entry
pub mod Store
pub mod Changes
