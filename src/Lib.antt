-- ===== src/Lib.antt =====
-- pageserv, a pager server. Users are sent pages: short texts, which a client hands to the server by one
-- of its protocols, and which wait as files in a queue directory until a delivery program dials a
-- paging terminal. The server checks the hours in which a user takes normal pages, and wraps long texts.
--
-- The state is the record `World` of Queue/Types.antt: the files, with their paths and contents; the
-- letters from which the next file name is made (the static `tmp` of newtmp); what was logged and mailed;
-- and what was written to the client. `Env` is what is read: the configuration (`conf`, rcfg_lookup),
-- the clock, and the user and terminal databases, which the program reaches through function pointers.
-- An operation is a function from the state to a result and the new state, which is `Option` where the
-- program may end (a failed assert) or may access memory outside an array. Texts are lists of bytes.
--
--   Base, Clib, Fs   the shared names and lemmas; what the code uses of the C library; the files
--   Text, Hours      pageserv/utility.c (kw, pack_timebits), pageserv/userdb.c (getnormtimes)
--   Net              pageserv/nettools.c
--   Queue            pageserv/queue.c, with include/pageserv.h and check_time of pageserv/userdb.c:
--                    Types the structures; Format the queue file, read and written; Names the names of
--                    new files; Store storequeue; Locks lock files, dequeue, readytodeliver and the
--                    notices; Sort queuesort; Listing listqueue and what walks over its list
--   Sorting          the quicksort of pageserv/utility.c and pageserv/queue.c; Text/Sort and Queue/Sort are
--                    its two uses
--   Tables           Users, Terms and Load pageserv/parseusers.c, pageserv/parseterms.c and the dump of
--                    pageserv/userdb.c; Dbm the calls of the dbm library, as an interface with laws;
--                    Userdb pageserv/userdb.c, and Termdb pageserv/termdb.c
--   Snpp             snpp/snppmain.c (Session, Hold, Main), snpp/snpplogin.c (Login),
--                    snpp/snppparse.c and snpp/snppmisc.c (Main, Hold), include/snpp.h
--   Delivery         delivery/modem.c (Modem), delivery/tap.c (Tap), with include/tap.h, and runqueue and
--                    cleanmylocks of delivery/misc.c (Pass)
--   Mash             the line protocol: Input gettextcr of pageserv/utility.c, Process pageserv/protocol.c, Login
--                    pageserv/login.c
--   Http             the web server: Auth and Request http/httpparse.c, Args http/urlparse.c, Reply
--                    http/httpmisc.c, Access http/httpauth.c, Forms http/sendpage.c, http/moduser.c and
--                    http/admin.c, Process http/httpprocess.c and http/httpmain.c
--   Memory           pageserv/mymalloc.c: Heap what it promises, Buckets and Live that it keeps it
--   Examples         a small configuration, and the theorems at concrete inputs
--
-- The SNPP server calls storequeue for each pager id of a session, readqueuefile and listqueue for the
-- entries that a user asks for, and dequeue for those he removes; storequeue asks the user database for
-- the hours (Hours) and the terminal database for the longest text.
--
-- The delivery program takes the entries of a terminal from listqueue, which locks them, sends each with
-- s_tap_send, and removes or unlocks it by the answer. Its end of a modem line is a `Line`: the bytes
-- still to arrive, with the seconds before each, and the bytes written. The line protocol is a `Talk`: the
-- bytes that the client still sends, the files, and the calls of storeuser and
-- deleteuser; the web server runs on the same.
--
-- Numbers: an `int` that is a mask or an address is its 32 bits, a natural number below 2 ^ 32, and shifts
-- wrap around there; other `int`s and times are integers, cut to 32 bits where the code casts or assigns
-- a time to an `int`. Loops without a bound of their own run on fuel: newqfile on one more round than
-- there are files, the loop of _splitsq on a round for each byte and one, storequeue, which calls itself
-- on the pieces of a message, two levels deep; the theorems about them give results, so the fuel is
-- enough. The sorts run on the length of their array, erasing a database on its number of keys, and reading a
-- table, a form or a request on its bytes, and the search for an .htaccess file on those of the
-- path; it goes on until the alarm where the path is not below the document root. The rounds of runqueue
-- over the queue are bounded by the alarm, which ends the program.
--
-- The clock, the configuration and the databases do not change during one call. Opening a file for
-- writing and writing to it succeed, and popen does. The calls of the dbm library are parameters
-- with laws, and crypt, rand, ctime, mktime, gmtime and the zone offset are parameters. Not modelled: processes, signals and sockets (main.c, kids.c, signals.c, sockets.c,
-- modules.c of pageserv/), the reading of the configuration (readconfig.c), the serial and network lines of
-- delivery/, the directory, SQL and NIS databases, the rules of http/lexer.l, the clients, debug output, and the memory of the C program where the code frees it or copies into fixed buffers.
pub mod Base
pub mod Clib
pub mod Hours
pub mod Net
pub mod Mash
pub mod Memory
pub mod Text
pub mod Fs
pub mod Queue
pub mod Snpp
pub mod Http
pub mod Sorting
pub mod Tables
pub mod Examples
pub mod Delivery
