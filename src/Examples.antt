-- ===== src/Examples.antt =====
-- The theorems at concrete inputs.
mod Sessions
mod Lockout
mod Signin
mod Signup
mod Password
mod Tokens
mod Notifications
mod Badges
mod Creations
mod Edits
mod Lives
mod Gate
mod Accounts
mod Digests
mod Newsletters
mod Endpoints
mod Profiles
mod Handlers
mod Bodies
mod Requests
mod Refresh
