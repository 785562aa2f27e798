-- ===== src/Lib.antt =====
-- A model of the SOCKS proxy of this repository (src/) and of what its parts promise each other.
--
-- A server (src/server.cpp) accepts clients and counts their sessions. A session (src/session.cpp)
-- reads a version byte, makes a SOCKS5 or SOCKS4 object (src/socks5.cpp, src/socks4.cpp, which share
-- src/socks.cpp) that reads the request, connects to the destination and answers; then the session
-- relays bytes both ways until a read or a write fails, and closes. Each session is recorded in a
-- database (src/stat_db_service.cpp), the settings and the users come from a file
-- (src/ConfigReader.cpp), and a log is written (src/Logger.cpp). A program shows the records
-- (ui), and on Windows a service runs the proxy (service/windows).
--
-- Prelude: shared names, lists and byte strings over the native numbers, bit operations.
-- StringUtils: src/string_utils.h, texts of bytes and addresses; Reverse is about
--   formIpAddressReverseString.
-- Asio: the interface of Boost.Asio's sockets and resolver, over any state `Net`, and the documented
--   behaviour of a connected stream, `IsStream`; that of a relay's pair of sockets is `IsPair` of
--   Session/Forwards.
-- World: the state of one session and of its Socks object, the interface of the database, and the
--   monad that the methods are written in; a thrown exception is an outcome. World/Triple has rules
--   for what a method ensures.
-- Config: Map is std::map as the code calls it, Text is `trim`, `reduce` and the calls of
--   std::string, Parse is `parseFile` and `fillUsers`; Reduce, Lines, Settings and Users are about
--   them, Values is `getValue`, and Instance `getInstance`.
-- Session: Io, Connect, Create, Start and Relay are src/session.cpp; Frame says what its methods leave alone,
--   Stream what they do on a connected stream, Endpoints which endpoint `connect` ends at,
--   Access whom a relay is started for, Made what `start` has made. Events are what happens to a
--   relay, Kept the conditions that last over any events, Closing what holds over a session's life,
--   Forwards what the relay does to its two sockets. Attempts is a client that waits for a reply.
-- Socks, Socks5, Socks4: the handshakes, method by method, with their requests, replies and access;
--   Answers is what a client is told, as it reads it.
-- Statistics: src/stat_db_service.cpp and src/stat_handlers.cpp. Sqlite is the interface of sqlite and
--   what a statement does to rows, Laws its documented behaviour, `IsSqlite`, Service the calls; Calls
--   says what they do to the rows, Refine what that is to the usage of each session, Overflow is about
--   large counters, Available about a file whose calls do not fail, Sessions about one write and
--   one `close` of a session on it, Selection about `selectAll`. Account is the account of a session's
--   record; Forms, Reads, Credits and Ends say what each call of the relay leaves of it, and Relay
--   what the whole relay does. Started is the record that `start` makes, and Lifetime a session from
--   its start on.
-- Ui: ui. Table is ui/session.cpp and ui/sessionmodel.cpp over an interface of Qt, Filter is
--   ui/sortfiltersessionmodel.cpp; Widths, Setters and Accepts are about them, Records about
--   what the table shows of the database.
-- Logger: src/Logger.cpp; Streams and Lines are about what is written, Names about its
--   settings.
-- Windows: service/windows. Controls is servicecontrols.c over an interface of Windows, Desktop, and
--   Clicks what it runs; Status is the two threads of service.cpp as a step relation, Reports what
--   they report, Pipe the output of the server's process.
-- Entry: src/main.cpp; Paths are those of its files on Windows.
-- Server: the accept loop as a step relation; Run has its runs, Bound the counter, Stuck the limit.
-- Tests: each theorem at one input.
--
-- A function of the source has its name here in lower case with underscores (`readCommandRequest` is
-- `read_command_request`); fields of objects are fields of `World`, `ConfigReader` and `Server`. The
-- code behind an early return is sometimes a definition of its own, such as `run_command`.
--
-- Fuel: the loop over a SOCKS4 user has a round for each byte that the client still sends, and one
-- more; the loop of `parseFile` has one for each line; `reduce` has one for each byte of its text, and
-- one more. A loop that runs out says so in its result, but for `reduce`, whose text has at most as
-- many runs of white space as bytes, and `selectAll`, which then throws, and whose loop has one round for
-- each row, and one more. The loop of formIpAddressReverseString has the fuel that
-- it is given. Bytes are numbers, below 256 where a theorem asks for it;
-- sixteen-bit words, `unsigned int` and `size_t` wrap as written. The counter of sessions, an `int`
-- in the source, has no bound here.
--
-- Not modelled: what the parts above write to the log, the result of `WinProc`, the
-- handlers that a message box of the control program lets run, what the Windows service writes to its
-- own log, what only passes a call on to Qt or Windows, and the interleaving of two methods of one
-- session: each runs whole. Sockets that throw on `close` are caught in the code, so `close` of the interface does not
-- throw. The widths of columns and the sums of them have no bound here.
pub mod Prelude
pub mod StringUtils
pub mod Asio
pub mod World
pub mod Config
pub mod Session
pub mod Socks
pub mod Socks5
pub mod Socks4
pub mod Server
pub mod Statistics
pub mod Ui
pub mod Logger
pub mod Windows
pub mod Entry
pub mod Tests
