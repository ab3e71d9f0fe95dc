-- ===== src/Lib.antt =====
-- A model of server-fw, a TFTP server, and what it does.
--
-- The program. `Srv` (source/tftpSrv.cpp) listens; for each request packet it makes a `Session`
-- (source/tftpSession.cpp), which parses the packet into `Options` (source/tftpOptions.cpp) and runs
-- in a thread of its own until it finishes. A session builds its packets in a `SmBufEx`
-- (source/tftpSmBufEx.cpp) over the checked accessors of `SmBuf` (source/tftpSmBuf.h), and reads or
-- writes its file through a `DataMgrFile` (source/tftpDataMgrFile.cpp). Addresses are `Addr`
-- (source/tftpAddr.cpp); the settings are read through `Base` (source/tftpBase.cpp). The program
-- (source/server-fw.cpp) reads its options, becomes a daemon if asked to, and runs the listener.
--
-- The files.
--   Prelude: Boolean tests, lists measured by native numbers, results, texts as lists of bytes.
--   Common: the enumerations of source/tftpCommon.h, their names, `do_lower`, `is_digit_str`, and the
--     conversions of the C++ library between numbers and text.
--   SmBuf, SmBufEx: the buffers. A buffer is the list of its bytes; an accessor of a type takes the
--     size of the type as a number. SmBuf/Words, SmBuf/Texts and SmBufEx/Contents hold the proofs.
--   Options: `buffer_parse`; Options/Request says what a client's packet looks like and what it asks for, Options/Refusals
--     what happens to other packets, and Options/Accepted what is known of each that is accepted.
--   Addr, Addr/Fields: the bytes of a socket address. Addr/Text: the conversions to text and from
--     text; Addr/Parse: `set_string`, with a function for each part of its regular expressions;
--     Addr/Dotted, Brackets, RoundTrip and RoundTripSix: the proofs.
--   Settings, Settings/Getters: the settings and the getters of `Base`. Settings/Load:
--     `load_options`, one turn of its loop as `option`; Settings/Load/Named, Kept and Answers: the
--     proofs. Settings/Help: the texts of `out_help` and `out_id`; Settings/Help/Names: the names of
--     the options in them.
--   DataMgr/Streams: the C++ file streams, as far as they are used; DataMgr/File: the reads and
--     writes; DataMgr/File/Search and DataMgr/File/Opening: `full_search_name`, `full_search_md5`,
--     `init` and `close`; DataMgr/File/Blocks, Appending, Search/Found and Opening/Mode: the proofs.
--   Session: the fields and `switch_to`; Session/Packets: the `construct_` functions;
--     Session/Receive: `receive_no_wait`; Session/Prepare: `prepare`; Session/Run: `init` and a round
--     of the loop of `run`, with one function for each `case` of its `switch`.
--   Session/Run/Steps, Moves, Sending, Exchange, Transfer, Service, Negotiation: the proofs about rounds
--     and about read requests that go well; Session/Run/Negotiation/Window and Lost: windows of several
--     blocks, and a reply that is not acknowledged. Session/Packets/Told and Total,
--     Session/Receive/Acks and Session/Run/Safety: read requests with any client, by what a round may
--     do (Ways), the rounds that send a block or none (Sends, Waits, Late), and whole runs (Reads,
--     Silence, Repeats, Unanswered). Session/Run/Receiving: write requests, a block at a time (Upload, Blocks, Stored), a
--     file in windows of any size (Windows, Serving, Negotiated), and a client that stops (Silence).
--     Session/Run/Ending: the end of `run`, and whole runs, also of requests that are refused; Session/Run/Frame: what no round changes.
--   Srv, Srv/Rounds: the listener and its list of sessions. Srv/Threads: the listener and the threads
--     in any order of their steps, which are rounds. Srv/Answers: from the packet that reaches the
--     listener to the end of its session.
--   Main, Main/Exits: the main program.
--   Tests: concrete inputs.
--
-- How it is modelled. State is passed on explicitly. A call that may throw, or that has no defined
-- behaviour, gives a `Result` with the `Fault`. A `size_t` keeps its wrap at 2 ^ 64 where the code
-- subtracts or multiplies; an `ssize_t` that is negative is `none` or a number from 2 ^ 63 up. What
-- the system answers, `socket`, `bind`, `recvfrom`, the clock and the file system, comes in as an
-- input of a round or as a record of functions (`Env`, `Input`, `Sys`, `Files`, `Host`). The functions
-- of the C library for addresses are the record `Inet`, those for users and groups the record
-- `Accounts`, and `getopt_long` is the list of its answers.
-- A write of the file either takes a block whole or fails.
--
-- Fuel. The loop of `parse_options` runs on the packet's size and one more, since each turn goes
-- forward. The loop of `run` has no bound: `rounds` takes one input for each of its rounds, and
-- `round` of `Srv` is one turn of its loop while `stop_` is not set. The wait of the main program for
-- its daemon runs on 26 turns, which are all it takes.
--
-- Not modelled: log messages, and `set_logger`, which only they would see; the locks of `Base`, since the settings do not
-- change while the server runs; the start and the end of threads, of which only the rounds are steps;
-- a change of a file by someone else while it is sent.
pub mod Prelude
pub mod Common
pub mod Settings
pub mod SmBuf
pub mod SmBufEx
pub mod Options
pub mod DataMgr
pub mod Addr
pub mod Session
pub mod Srv
pub mod Main
mod Tests
