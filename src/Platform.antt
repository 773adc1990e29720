-- ===== src/Platform.antt =====
-- What the application calls and does not implement: PostgreSQL tables through SQLAlchemy, and the
-- Redis server. Each is a record of the calls that the source makes, with laws that state the
-- documented behaviour of those calls.
pub mod Table
pub mod Listing
pub mod Redis
pub mod Crypto
pub mod Samples
