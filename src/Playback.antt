-- ===== src/Playback.antt =====
-- app/playback/hls.py: the HLS manifest and playback-line parsers.
pub mod Text
pub mod Urls
pub mod Manifest
pub mod Okay
pub mod Clean
pub mod Hosts
pub mod LineHosts
mod Tests
pub mod Lines
