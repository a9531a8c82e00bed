-- ===== src/Update.antt =====
-- app/source_update/service.py: checking a source and applying selected fields by hand.
pub mod Contracts
pub mod Plan
pub mod Planned
pub mod Grounds
pub mod Token
pub mod Tokens
pub mod Genuine
pub mod Verify
pub mod Closing
pub mod Apply
pub mod Rows
pub mod Tables
pub mod Readings
pub mod Steps
pub mod Succeeds
pub mod Applied
pub mod Again
pub mod Check
pub mod Checked
pub mod Answered
pub mod Usable
pub mod Kept
pub mod Preserves
pub mod Invariant
pub mod Honest
mod Tests
