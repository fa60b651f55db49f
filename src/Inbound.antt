-- ===== src/Inbound.antt =====
-- internal/inbound/inbound.go: what the bridge does with a message.
pub mod Types
pub mod Start
pub mod Handle
pub mod Run
pub mod RunsIn
pub mod OneJob
pub mod Reach
pub mod Stop
pub mod Known
pub mod Once
pub mod Idle
pub mod Attachments
pub mod Limits
pub mod Examples
