-- ===== src/Auth.antt =====
-- app/auth.py: registration, login, MFA and the session endpoints.
pub mod Events
pub mod RateLimits
pub mod Risk
pub mod Sessions
pub mod Login
pub mod Mfa
pub mod Account
pub mod Register
pub mod Frame
