-- ===== src/Tests.antt =====
-- The components on concrete inputs.
pub mod Setup
pub mod Evidence
pub mod Linter
pub mod Policy
pub mod Bundles
pub mod Auth
pub mod Profiles
pub mod Feedback
pub mod Pii
pub mod Chain
pub mod Automation
pub mod Tuner
pub mod Nli
pub mod Safety
