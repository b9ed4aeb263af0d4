-- ===== src/Pinentry.antt =====
-- pinentry/pinentry.go: the confirmation dialogs.
pub mod Binary
pub mod Dialogs
pub mod Audit
pub mod Answers
pub mod Calls
pub mod Work
