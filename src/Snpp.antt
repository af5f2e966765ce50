-- ===== src/Snpp.antt =====
-- The SNPP server: snpp/snppmain.c, snpp/snppparse.c, snpp/snppmisc.c and snpp/snpplogin.c.
-- The static variables of the server are the `Session`; a command is a function on it and on the
-- queue's `World`.
pub mod Session
pub mod Hold
pub mod Login
pub mod Main
