-- ===== src/Media.antt =====
-- app/services, the lock around every change of the media tree, and the media index's part in it.
mod Tests
pub mod Identity
pub mod Lock
pub mod Classify
pub mod Coordination
pub mod Batch
pub mod Wait
pub mod Guard
pub mod Trust
pub mod Descriptors
pub mod Release
