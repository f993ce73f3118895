-- ===== src/Pipeline.antt =====
-- app/detection.py: the scoring of login attempts.
pub mod Compare
pub mod Features
pub mod Evaluation
pub mod Ml
pub mod Levels
pub mod Store
pub mod Attempt
pub mod Process
pub mod Enforcement
pub mod Events
pub mod Sweep
pub mod Gate
pub mod Stable
pub mod Deliveries
pub mod Runs
pub mod Once
pub mod Replay
pub mod Scored
pub mod Answers
pub mod Redelivery
pub mod ReadOnly
pub mod Verdict
pub mod FailOpen
pub mod Held
pub mod Bounds
pub mod Scores
pub mod Usable
pub mod Protective
pub mod History
pub mod Records
