-- ===== src/Lib.antt =====
-- NexusFTP: an FTP server (src/server), its platform layer and utilities (src/common), its client
-- (src/client), and the single-file programs that came before them (server/main.cpp, client/main.cpp).
--
-- The program. FTPServer accepts control connections and hands each to a worker of a pool, which runs
-- a Session (src/server/session.cpp). A session reads one command per recv, checks the login through
-- the shared AuthManager (src/server/auth.cpp), resolves paths against the user's root, opens data
-- connections through its DataChannel (src/server/data_channel.h) and moves files with TransferEngine
-- (src/server/transfer.h). All of them reach the operating system through src/common/platform.cpp.
--
-- The files.
--   Prelude: the shared library names, Boolean tests, lists and integers over native numbers.
--   Bytes: std::string as a list of bytes; Decimal is std::to_string and std::stoi, Assoc the
--     unordered maps, Lines std::getline.
--   Platform: `Host`, a record of system calls over an abstract world, and src/common/platform.cpp on
--     top of it: Sockets, Files, Transmit (sendfile). Windows has the Windows branches over a record of
--     their own; Managed is ManagedSocket over the wrappers of a scope, with proofs below it.
--   Sha256: src/common/sha256.h (Rounds, Padding, Hex); Standard words FIPS 180-4, and Digest, Schedule,
--     Roots, Texts and Equivalence have the proofs.
--   Auth: src/server/auth.cpp (Users the file and the hashes, Rates the counter of an address);
--     Accounts and Blocking have the proofs.
--   Config: src/common/config.h; Settings has the proofs.
--   DataChannel: src/server/data_channel.h; PortCommand is parsePortCommand, RoundTrip its proof;
--     Sockets, Handed and Uses count the sockets of a channel.
--   Transfer: src/server/transfer.h (Limiter, Send, Receive); Uploads and Downloads have the proofs,
--     Streams what the loops that send rely on and what fseek does.
--   Session: the records of src/server/session.h, and session.cpp in Paths (isSafeFilename,
--     resolvePath, isWithinRoot), Reply (sendReply, recvCommand and the guards that handlers share),
--     Access (constructor, USER, PASS, QUIT, SYST, TYPE, FEAT), Directories (PWD, CWD, CDUP, SIZE,
--     MDTM, MKD, RMD), Files (DELE, RNFR, RNTO, REST), Data (PASV, PORT, LIST, NLST, RETR, STOR) and
--     Loop (run). Flows, Paths/Laws, Confinement, Sandbox, Login, Ports, Connections, Traversal,
--     Navigation, Offsets, Accounting, Protocol (the login as an automaton) and Passwords have the
--     proofs.
--   Client: src/client/ftp_client.cpp over the same host, without what it prints, with the transfers in
--     Transfers and commandLoop in Keyboard; Main is src/client/main.cpp. Passive, Repeats, Uploads,
--     Framing (the form of a reply), Replies and Dialogue have the proofs.
--   Admin: src/server/admin_server.cpp, with the page in Page; Stop has the proof.
--   Pool: src/server/thread_pool.cpp as a step relation; Order and Drain have the proofs. Semaphore is
--     the same pool over the CondVar of the Windows branch of src/common/win32_threads.h;
--     Attended and Released have the proofs.
--   Server: src/server/ftp_server.cpp, its settings and its accept loop; System puts the accept loop,
--     the pool and the sessions together as a step relation, Capacity has the proofs. Main is
--     src/server/main.cpp, with start and shutdown of the dashboard.
--   Logger: src/common/logger.h.
--   Threads: src/common/win32_threads.h. The counters of AtomicU64 in one step each, the two
--     implementations in Posix and Windows, an access at a time, AtomicBool in Flags and the Thread
--     wrapper in Handles; Refines, Exclusion and Joins have the proofs.
--   Tools: tools/hash_password.cpp; Lines has the proof.
--   Legacy: server/main.cpp, in Commands, Transfers and Loop; Login has the proofs.
--   LegacyClient: client/main.cpp, openDataConnection there and the rest in Commands.
--   Tests: a toy host, SHA-256 vectors and the witnesses.
--
-- How state corresponds. A handler is a function on `Sys`: the fields of Session, those of
-- ServerContext and the world. Its result is a `Flow`: go on with the loop, leave it, leave it by a
-- C++ exception, undefined behaviour, or a transfer that outlasts its fuel. Mutexes around the users,
-- the rates and the counters make each operation one step. A SocketHandle is an optional number, with
-- none for kInvalidSocket.
--
-- Numbers are natural; uint64_t keeps its wrap-around as % 2 ^ 64. Arithmetic in double, the clock and
-- the system calls are fields of `Host`. The loops over sockets and files run on fuel, which stands for
-- the bytes to come, so that more fuel than there are bytes is enough; the loop over commands runs on a
-- bound on their number. Hash blocks and decimal digits compute their own fuel.
--
-- In Server/System a turn of the accept loop and a turn of a session's loop are one step each: steps of
-- different workers come in any order, but the parts of one turn are not interleaved.
--
-- Not modelled: what is printed and logged (the logger itself is), the fields of the socket addresses,
-- the pointer to a thread's function, the classes of the POSIX branch of win32_threads.h that only pass
-- calls on to the standard library, and the programs under tests. A Windows function of platform.cpp
-- that differs from that of POSIX by the name of the call only is modelled by the latter.
pub mod Prelude
pub mod Bytes
pub mod Platform
pub mod Sha256
pub mod Auth
pub mod Config
pub mod DataChannel
pub mod Transfer
pub mod Session
pub mod Client
pub mod Pool
mod Tests
pub mod Server
pub mod Logger
pub mod Legacy
pub mod Admin
pub mod LegacyClient
pub mod Threads
pub mod Tools
