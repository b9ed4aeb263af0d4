-- ===== src/U2f.antt =====
-- fidoauth/fidoauth.go: the U2F (CTAP1) requests.
pub mod Decode
pub mod Laws
pub mod RoundTrip
