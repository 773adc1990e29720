-- ===== src/Content.antt =====
-- The rows and services that badges, templates and notifications share: app/models/, and the session
-- of a request.
pub mod State
pub mod Slug
pub mod Samples
