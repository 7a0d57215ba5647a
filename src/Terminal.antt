-- ===== src/Terminal.antt =====
-- The terminal side, mailman/terminal: what an operator's machine runs.
pub mod CampaignLock
pub mod EmailClean
pub mod Plan
pub mod Schedule
pub mod Push
pub mod Inbox
pub mod Materialise
pub mod MergeUnsubs
pub mod Outcomes
