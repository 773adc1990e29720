-- ===== src/Lib.antt =====
-- The Social Badge API: accounts and sessions, one-time tokens, badges, notifications, and the endpoints.
--
-- The program is a FastAPI service over PostgreSQL and Redis. Its routers (app/routers/) call services
-- (app/services/), which keep rows through SQLAlchemy (app/models/) and short-lived tokens in Redis
-- (app/core/token.py). The development models the services and what they use:
--
--   Platform       what the services call and the repository does not define: a table of the database
--                  (Platform/Table) and its paginated queries (Platform/Listing), the Redis server
--                  (Platform/Redis), hashes, random values, identifiers and JSON Web Tokens
--                  (Platform/Crypto). They are parameters, records of operations with
--                  the laws that the code relies on. Platform/Samples gives an instance of each.
--   Settings       app/core/config.py: the settings that are read, their defaults, and the keys of Redis.
--   Token          app/core/token.py. Token/Entries: each Redis key after each call; Token/Index: the
--                  index of verification tokens by user; Token/OneTime: tokens that serve once.
--   Ip, Security   app/core/ip.py and app/core/security.py.
--   Auth           app/services/auth.py. Auth/State has the rows, errors and the world of a call;
--                  Auth/Lockout the counter of failures; Auth/Signin, Auth/Refresh, Auth/Logout the life of
--                  a session; Auth/Sessions sequences of such calls; Auth/Signup, Auth/Password and
--                  Auth/Verify the life of an account (`verify_email` is in app/routers/v1/auth.py); Auth/Google
--                  signs in with Google, whose answers (Auth/Answers) are a parameter; Auth/Gate is
--                  app/dependencies.py.
--   Content        the rows and the world of the services below, and app/core/slug.py.
--   Notification   app/services/notification.py, and Notification/Listing its paginated list.
--   Badge          app/services/badge.py, and Badge/Edit its `edit_badge` and `duplicate_badge`; Badge/Life
--                  sequences of its calls, Badge/Listing its lists and Badge/Analytics its aggregates.
--   Digest         app/workers/digest_jobs.py: Digest/Targets its users, Digest/Loop and Digest/Outcome the
--                  loop that both jobs share, Digest/Daily and Digest/Weekly each job.
--   Newsletter     app/services/newsletter.py; Newsletter/Refinement has its abstract specification, a map
--                  from addresses to tokens.
--   Contact        app/services/contact.py and its endpoint.
--   Profile        app/services/profile.py, over the worlds of Auth and of Content side by side.
--   Router         app/routers/v1/ and app/core/exceptions/handlers.py: what becomes of a service's error.
--                  Router/Auth (with Router/Auth/Google), Router/Badges, Router/Profile and Router/Feeds
--                  (notifications, templates, newsletter).
--   Schemas        the validators of app/schemas/auth.py and app/schemas/profile.py; Sanitizer has
--                  `validate_no_html` of app/core/sanitizer.py.
--   Middleware     app/core/middleware/content_size.py: the limit on the body of a request.
--   Admin          app/services/admin.py and app/routers/v1/admin.py.
--   Examples       the theorems at concrete inputs.
--
-- A call is a function from a world to a result and a world (Common/Exec): an exception is an error value,
-- and what was done before it stands, as in the code. The world has the rows that the session sees (`db`),
-- the rows that are committed (`durable`), Redis, the clock, and the number of random values drawn; a
-- commit copies the first to the second, a rollback the second to the first. Definitions have the names of
-- the Python functions, and their bodies follow these in order. Names with `by_` are the conditions of
-- `where`.
--
-- What the reader should know of the model:
--   * A call reads the clock once; time passes between calls. Times are microseconds.
--   * UUIDs are numbers, and a random value is a function of the number of draws so far. A theorem that
--     needs identifiers to differ says so.
--   * Numbers are natural numbers without bound. The counters of a badge and its access type are 32-bit
--     columns of the database; their overflow is not modelled. The functions that walk a text or a list
--     are structural. Fuel is needed where an upload is read in chunks and where a client follows links,
--     for which a theorem says how much is enough, and for the digits of a number (Common/Strip).
--   * Calls run one after another. `signup` and `subscribe` take what other transactions commit between
--     SELECT and INSERT as an argument, since the unique constraints are there for that case; a failing commit is an
--     argument of `verify_email` and `upload_badge_logo`.
--   * A text that does not fit its column is a DataError for the address of a new session, the names of a
--     new account, and the title of a copied badge (`flush`, `insert_copy`), which no schema bounds; the
--     lengths of the other columns are not modelled. JSON is kept as its text, and what a response needs
--     of it, an object as the canvas of a badge, is tested where the response is made.
--   * Columns that the database fills by itself (`created_at`, `updated_at`) are left out where no modelled
--     code reads them.
--
--   * ORDER BY is a sort of the rows that match, and a page a part of it (Common/Order); the order in which
--     the database and Python go through what is not ordered stays open, as a parameter. Rows with equal
--     sort keys keep one order from page to page, which PostgreSQL does not promise.
--   * What else pydantic makes of a row for a response, the attributes of cookies, and rate limits are left
--     out, and what an application sent before the limit on its body stopped it.
--
-- Not modelled: the validators of badges, contacts and administration, what is redacted in the logs,
-- e-mail templates and SMTP, logging, seeding and migrations.
pub mod Common
pub mod Platform
pub mod Settings
pub mod Token
pub mod Ip
pub mod Security
pub mod Sanitizer
pub mod Schemas
pub mod Auth
pub mod Content
pub mod Notification
pub mod Badge
pub mod Digest
pub mod Middleware
pub mod Newsletter
pub mod Contact
pub mod Profile
pub mod Router
pub mod Admin
pub mod Examples
