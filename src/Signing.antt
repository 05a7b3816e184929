-- ===== src/Signing.antt =====
-- control/guardx_control/signing: canonical JSON and the signer.
pub mod Canonical
