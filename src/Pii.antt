-- ===== src/Pii.antt =====
-- detectors/pii/pii_detector: the validators of candidate matches, the scan of a text, and the check
-- that the service answers.
pub mod Validators
pub mod Luhn
pub mod Detector
pub mod Pack
pub mod Overlap
pub mod Score
