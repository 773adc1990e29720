-- ===== src/Router.antt =====
-- app/routers/v1/ and app/core/exceptions/handlers.py: how a service's error becomes a response.
pub mod Badges
pub mod Profile
pub mod Auth
pub mod Feeds
use social_badge_api.Common.{ℕ, Option, none, some, Text, codes}
use social_badge_api.Common.Exec.{Result, ok, err}
use social_badge_api.Content.State.{
  ContentError, badge_not_found, not_badge_owner, badge_already_published, public_badge_not_found,
  template_not_found, template_not_active, cloudinary_upload, value_error, integrity_error,
  database_failed, index_error,
}

-- HTTPException with its status and detail, the ValidationError of a response that does not fit its
-- schema, or an exception that an endpoint lets through.
pub data ApiError : Type 0 where
  refused : ℕ → Text → ApiError
  invalid_response : ApiError
  unhandled : ContentError → ApiError

abbrev pub refusal : ContentError → Option (ℕ × Text) → ApiError
refusal x none = unhandled x
refusal x (some (status, detail)) = refused status detail

-- `try` around a call, with its `except` clauses.
abbrev pub catching :
    {W A : Type 0}
    → (ContentError → Option (ℕ × Text))
    → Result ContentError A × W
    → Result ApiError A × W
catching clauses (ok a, w) = (ok a, w)
catching clauses (err x, w) = (err (refusal x (clauses x)), w)

-- global_exception_handler: the status and the message of an error. IntegrityError is tested before
-- SQLAlchemyError, which it is one of.
unfoldable pub global_exception_handler : ApiError → ℕ × Text
global_exception_handler (refused status detail) = (status, detail)
global_exception_handler invalid_response = (500, codes "Internal Server Error")
global_exception_handler (unhandled integrity_error) = (409, codes "Database constraint violation")
global_exception_handler (unhandled database_failed) = (500, codes "A database error occurred")
global_exception_handler (unhandled x) = (500, codes "Internal Server Error")

-- The status of a response, `success` where the endpoint returns.
abbrev pub status_of : {A : Type 0} → ℕ → Result ApiError A → ℕ
status_of success (ok a) = success
status_of success (err x) = (global_exception_handler x).0

-- except BadgeNotFoundError, except NotBadgeOwnerError
abbrev pub owner_clauses : ContentError → Option (ℕ × Text)
owner_clauses badge_not_found = some (404, codes "Badge not found.")
owner_clauses not_badge_owner = some (403, codes "You do not own this badge.")
owner_clauses x = none
