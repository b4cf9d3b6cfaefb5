-- ===== src/Channels.antt =====
-- src/channels: the store of blobs that messages carry.
pub mod Blobs
mod Tests
