-- ===== src/Nli.antt =====
-- detectors/nli/nli_detector: the claims of an answer, and the check of each against the context.
pub mod Segmenter
pub mod Check
pub mod Sound
