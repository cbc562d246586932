-- ===== src/Stream.antt =====
-- pkg/stream: reading messages from kafka and writing notifications to it.
pub mod Reader
pub mod Writer
pub mod Commits
pub mod Login
