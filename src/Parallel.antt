-- ===== src/Parallel.antt =====
-- fidohid/fidohid.go and main.go together: the goroutines of the reader, the transport and the server.
pub mod Recorder
pub mod Same
pub mod System
pub mod Events
pub mod Heard
pub mod Order
pub mod Reports
pub mod Written
pub mod Rounds
pub mod FrameSize
pub mod Sizes
pub mod Rest
pub mod Progress
pub mod Commands
pub mod Responses
pub mod Answers
