-- ===== src/Hid.antt =====
-- fidohid/fidohid.go: the CTAPHID transport over a uhid device.
pub mod Types
pub mod Device
pub mod Reader
pub mod Frames
pub mod Write
pub mod Channels
pub mod Run
pub mod FrameList
pub mod ParseFrames
pub mod Transport
pub mod Allocation
pub mod Packets
