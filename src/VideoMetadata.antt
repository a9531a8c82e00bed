-- ===== src/VideoMetadata.antt =====
-- app/video_metadata/merge.py: the plan that merges incoming video metadata into local metadata.
pub mod Values
pub mod Merge
pub mod Decisions
pub mod Links
pub mod Plan
mod Tests
