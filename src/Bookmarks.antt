-- ===== src/Bookmarks.antt =====
-- app/bookmarks: the bookmarks of all users, their tags, and the queries on them.
pub mod Models
pub mod Policy
pub mod Patterns
pub mod Repository
pub mod Listing
pub mod Cursor
pub mod Writes
pub mod Service
pub mod Examples
