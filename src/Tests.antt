-- ===== src/Tests.antt =====
-- The theorems at concrete inputs, and the data that they are tried on.
mod Data
mod Wire
mod Store
mod Handlers
mod Keys
mod Scan
mod Chip
mod Prompts
mod Messages
mod Trace
mod Schedules
