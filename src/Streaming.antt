-- ===== src/Streaming.antt =====
-- src/watlowlib/streaming: the recorder.
pub mod Summary
pub mod Channel
pub mod Publish
pub mod Producer
