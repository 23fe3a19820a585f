-- ===== src/Session.antt =====
-- The recording session of one camera.
pub mod Packet
pub mod PreBuffer
pub mod Analyzer
pub mod State
pub mod Muxer
pub mod Rotate
pub mod Push
pub mod Control
pub mod Valid
pub mod Run
pub mod Record
pub mod Chunks
pub mod Limit
pub mod Notify
pub mod Graph
mod Tests
