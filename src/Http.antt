-- ===== src/Http.antt =====
-- The web server: requests, credentials, arguments, the pages that take a form, and what they change.
pub mod Auth
pub mod Args
pub mod Reply
pub mod Request
pub mod Access
pub mod Forms
pub mod Process
