-- ===== src/Tpm.antt =====
-- tpm/tpm.go: the signer that keeps its keys in a TPM.
pub mod Handle
pub mod Device
pub mod Clock
pub mod Signer
pub mod HandleLaws
pub mod Sessions
pub mod Runs
pub mod Laws
