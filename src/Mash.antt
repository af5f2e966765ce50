-- ===== src/Mash.antt =====
-- The server's own line protocol: pageserv/protocol.c, pageserv/login.c, and how pageserv/utility.c
-- reads its lines.
pub mod Input
pub mod Talk
pub mod Process
pub mod Login
