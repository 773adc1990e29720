-- ===== src/Auth.antt =====
-- app/services/auth.py: accounts, sign-in and sessions.
pub mod State
pub mod Samples
pub mod Lockout
pub mod Signin
pub mod Refresh
pub mod Logout
pub mod Sessions
pub mod Signup
pub mod Password
pub mod Verify
pub mod Answers
pub mod Google
pub mod Devices
pub mod Gate
