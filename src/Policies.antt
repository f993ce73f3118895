-- ===== src/Policies.antt =====
-- app/detection.py: the configuration and the rules of a policy, and its activation. The numbers of
-- a policy are Python's, given by Arithmetic: no law of them is assumed.
pub mod Config
pub mod Rules
pub mod Activation
pub mod Sound
pub mod Exclusive
