-- ===== src/Fprintd.antt =====
-- fprintd/fprintd.go: the fingerprint reader.
pub mod Scan
pub mod Protocol
pub mod Reports
pub mod Loop
pub mod Verdicts
pub mod Closing
pub mod User
pub mod Sharing
pub mod Counts
pub mod OpenScans
pub mod Success
