-- ===== src/Stream.antt =====
-- rtsp_stream.hpp and rtsp_stream.cpp: the connection to a camera.
pub mod State
pub mod Input
pub mod Read
pub mod Reconnect
pub mod Lifecycle
mod Tests
