-- ===== src/Queue.antt =====
-- The queue: pageserv/queue.c, and `check_time` of pageserv/userdb.c.
pub mod Types
pub mod Format
pub mod Names
pub mod Store
pub mod Locks
pub mod Sort
pub mod Listing
