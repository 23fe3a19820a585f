-- ===== src/Alarm.antt =====
-- Alarms: their record, the queue that carries them, and the server that decodes them.
pub mod Event
pub mod Queue
pub mod Frame
pub mod Decode
pub mod Server
pub mod Listener
mod Tests
