-- ===== src/Ctap2.antt =====
-- ctap2/ctap2.go and ctap2/credstore.go: the CTAP2 messages and the resident credentials.
pub mod Types
pub mod CredStore
