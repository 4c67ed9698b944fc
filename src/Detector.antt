-- ===== src/Detector.antt =====
-- internal/detector: what the scorers know of a client.
pub mod Tracker
pub mod Fleet
pub mod Scorer
pub mod Reputation
pub mod Samples
