-- ===== src/Safety.antt =====
-- detectors/safety/safety_detector: the keywords, the judge's answers, and the thresholds per category.
pub mod Check
pub mod Signals
pub mod Sound
