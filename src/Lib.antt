-- ===== src/Lib.antt =====
-- The domain blocking service of src/dbl, as a model of what its C++ sources do and proofs about it.
--
-- The program keeps lists of blocked and whitelisted domains in SQLite, serves a JSON protocol on a
-- management port, and writes the configuration of a DNS proxy from the blocked domains. The managers
-- run SQL statements on the database; the server's connection authenticates its peer and calls the
-- managers. main.cxx sets the service up again and again: a master process starts the DNS proxy and
-- waits for a worker process, which runs the servers, drops its privileges and updates the lists.
--
-- Files, and the sources that they model:
--   Fallible          runtime_error, ServiceOperationError and null pointers as values; an action on a
--                     state returns or throws and leaves a state in both cases. Fallible/Keeps has the
--                     rules for invariants of actions, Fallible/Triples those for conditions before
--                     and after.
--   Types             src/dbl/types: Domain, DomainList
--   Storage           src/dbl/db: the tables (ddl.hxx), one function for each SQL statement of
--                     queries.hxx and of the managers (Storage/Statements), one statement, one
--                     transaction and DB::init (Storage/Session). Storage/Integrity has the
--                     constraints of the schema as an invariant, Storage/Returns the actions that
--                     return though statements may fail. SQLite enforces foreign keys
--                     and cascades only after the PRAGMA of DB::init: the tables hold whether
--                     they do, and without it no statement fails or cascades for a key.
--   Validator         src/dbl/validator/domain.cxx
--   Manager           src/dbl/manager: settings_manager.cxx (Settings), domain_list_manager.cxx
--                     (DomainLists), domain_manager.cxx (Domains and Blocking). Manager/Integrity is
--                     about the invariant of the tables; Manager/Blocking/Promise is the abstract view of blocking, a mark for each name.
--   Crypto, Auth      src/dbl/util/crypto.cxx, src/dbl/auth/auth.cxx
--   Json              jsoncpp as a record of operations, and the conversions of src/dbl/types and
--                     src/dbl/status (Json/Convert); Status::init is in Main/Setting
--   Service           src/dbl/service/server: Connection and Env, the handlers (Service/Handlers), the
--                     dispatch and the loop of a connection (Service/Dispatch). Service/Gate,
--                     Service/Admission and Service/Integrity are about requests and whole
--                     conversations, Service/Replies about the shape of replies.
--   Server            src/dbl/service/server/server.hxx with connection.cxx: many connections as a step
--                     function over the completions of accepts, reads and writes, for any type of
--                     connection. Server/Management and Server/Responder are the two types, and
--                     Server/Process has both servers and the updates on one database.
--                     Server/Invariants and Server/Peers carry predicates through all events;
--                     Server/Dialogue has the events of one peer.
--   Client            src/dblclient: requests and responses, a session's operations (Client/Session), and
--                     the socket with its deadline (Client/Connection). Client/Login has a client and
--                     the server together.
--   Logger            src/dbl/logger/logger.cxx
--   Updater           src/dbl/updater/updater.cxx
--   Http              src/dbl/util/http.cxx, src/dbl/net/http (the requests in Http/Request, which
--                     Http/Request/Fetching makes a site of the updater), and the HTTP responder
--   Mgmt, Query       src/dbl/mgmt/mgmt.cxx, src/dbl/query/query.cxx, without their constructors, which
--                     Main/Requests has
--   Config, Options   src/dbl/config; src/dbl/options: what an option is declared with
--                     (Options/Table), the declared options (Options/Groups), parse() and get();
--                     validate_options of src/dbl/init/init.cxx
--   Network           src/dbl/service/configurator, src/dbl/util/fs.cxx
--   Worker            src/dbl/service/worker: the servers, the loop of waits, and dropping privileges
--                     (Worker/Privileges)
--   Daemon            src/dbl/service/unix.cxx: the pid file and the DNS proxy, and the processes
--                     (Daemon/Processes)
--   Main              src/dbl/main.cxx, which composes the parts above: Main/Setting has its state and the
--                     rounds of the loop, Main/Parts gives each part its share of the configuration, and
--                     Main/Requests reads the options for the query and the management mode.
--                     Main/Blocking follows a command line to the database, Main/Reporting the counts to the reply
--                     of a connection.
--   Sys               src/dbl/sys/command.cxx
--   DnsProxy          src/dbl/dnsproxy and src/dbl/template: the configuration file as a list of lines
--                     (DnsProxy/Lines)
--   Tests             sample data, on which the theorems are applied
--
-- Failures of the database are part of the state: a store has a schedule that says of each coming
-- statement whether it fails, so that a theorem for every store covers every failure. A query fails
-- before its first row or not at all; a transaction that throws leaves what it has written
-- in its session, as nothing rolls back; that the session's next begin() fails is one of the schedules. Numbers are
-- natural numbers, since ids, counts and times are never negative here; BOOLEAN columns are Booleans. The
-- order of rows is that of an ORDER BY, and otherwise the order of the table. A conversion of a JSON value
-- that does not fit throws as a runtime_error, and a read through a null pointer ends the connection.
-- Loops over data are structural recursion on lists. A loop that waits for the world is given a list of what
-- happens: the worker's has a list of waits, each with how it ends, and main's a list of rounds; the
-- result says whether the loop has ended or waits for more. The wait for the DNS proxy counts down from 30
-- as in the source. Reading a command's output is recursion on fuel, of which a round for each character
-- and one more are enough.
--
-- The operating system's calls are functions on a state that is left open (the ids of the process), or a
-- function of the commands that were run before (the shell). A signal is an event of the loop that it
-- reaches. Integers that can be negative (ports, process ids, the interval) are a ℤ over the native numbers.
--
-- Parameters, since their code is not in the repository: jsoncpp (Json), the MD5 digest of OpenSSL,
-- getaddrinfo, boost's to_lower, split, trim and replace_all, what boost::program_options stores, curl, the
-- file system, the shell and the calls of the operating system, the random token of a connection, the
-- clock.
--
-- Not modelled: logging and its setup, fork() and the shared memory, what --help and --debug print of the
-- options, and the scripts of src/dbl/sys, which nothing uses. Of boost::asio only the completions are
-- modelled; a request is what one read delivers. The servers' threads and the updates interleave by whole
-- handlers and whole updates, not by statements. The names of interfaces are not cut to the length of the
-- system's. send_reload of the client writes without reading, which the exchange of texts that a session
-- uses does not express; Client/Connection has the socket's side of it.
pub mod Prelude
pub mod Fallible
pub mod Types
pub mod Storage
pub mod Sys
pub mod Validator
pub mod Manager
pub mod Crypto
pub mod Auth
pub mod Json
pub mod Service
pub mod Server
pub mod Client
pub mod Logger
pub mod Updater
pub mod Mgmt
pub mod DnsProxy
pub mod Worker
pub mod Config
pub mod Options
pub mod Query
pub mod Main
pub mod Http
pub mod Network
pub mod Daemon
pub mod Tests
