-- ===== src/Automation.antt =====
-- automation/guardx_automation: what turns feeds and documents into proposals of policies.
pub mod Gitleaks
pub mod Ingestor
pub mod Offer
pub mod Additive
pub mod Threshold
pub mod Grid
pub mod Improved
pub mod Samples
pub mod Tuner
pub mod Templates
pub mod Synth
pub mod Synthesize
pub mod Groups
pub mod Provenance
