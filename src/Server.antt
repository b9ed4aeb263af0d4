-- ===== src/Server.antt =====
-- main.go: the server and its handlers.
pub mod Types
pub mod MakeCredential
pub mod GetAssertion
pub mod Dispatch
pub mod U2f
pub mod Presence
pub mod Login
pub mod Passkey
pub mod Asserted
pub mod Made
pub mod AuthData
pub mod SignerLaws
pub mod Consent
pub mod Replies
pub mod U2fReplies
pub mod Run
pub mod Exchange
pub mod Panics
pub mod Start
