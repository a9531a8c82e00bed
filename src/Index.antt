-- ===== src/Index.antt =====
-- app/services/media_index.py: the signed index of the media tree.
pub mod Contracts
pub mod Load
pub mod Rows
pub mod Invalidate
pub mod Status
pub mod Failure
pub mod Diff
pub mod Refresh
pub mod Run
pub mod Written
pub mod Renewed
pub mod Succeeds
pub mod Refreshed
pub mod Reading
pub mod Sealed
pub mod Preferred
pub mod Coordinated
mod Tests
