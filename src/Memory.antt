-- ===== src/Memory.antt =====
-- internal/memory: the user profiles.
pub mod Blank
pub mod Scheduler
pub mod Eligible
pub mod Profiles
pub mod Show
pub mod Service
pub mod Appendix
