-- ===== src/Lib.antt =====
-- nsqlite: a model of the server in cubical type theory.
--
-- The program is an HTTP server in front of one SQLite database. A request is authorized
-- (internal/server/auth.go, rpc.go, rqlite.go), turned into queries of the database
-- (internal/server/query.go, query_convert.go), and run by `DB` (internal/db/db.go), which keeps
-- one read-write connection, a pool of read-only ones, at most one open transaction with its owner,
-- and three mutexes. Each query sets the role of its connection, by which an authorizer
-- (internal/sqlite/sqlite.c) grants or denies what SQLite prepares. The counters of internal/stats
-- are raised on the way. cmd/entrypoint/main.go starts the server in a container, with or without
-- the replication of Litestream.
--
-- Files, by the code that they model:
--   Prelude and its children: Boolean tests, lists measured by native numbers, Go strings, maps
--     with string keys, and int64 counters as bit patterns that wrap at 2^64.
--   Stats: internal/stats. Defs has the state of `DBStats` and its counters (`IncReads` is
--     inc_reads and so on) and the cleanup; Load has LoadStats; Counters, Report, Balance and
--     Forget have their properties. A time is a number of nanoseconds, and the key of a minute is
--     the time at which it begins; the order of a `sync.Map` is left open by the code, and the
--     snapshot sorts it.
--   Auth: internal/server/auth.go, authorizeRPCRequest, authorizeRQLiteRequest and
--     internal/util/cryptoutil. Tokens has the tokens and the hash check, Check the cache, Requests
--     the decision; Scan, Cache and Access have their properties. SHA-256, bcrypt and argon2id are
--     the fields of `Crypto`.
--   Authorizer: the callback of internal/sqlite/sqlite.c with its lists of functions and pragmas
--     (Defs), and what it permits (Policy).
--   Db: internal/db/db.go. Types has queries, results and errors and the environment `Engine`;
--     State has `DB` and its mutexes; Classify has ClassifyQuery and the connections; Exec has
--     executeBeginQuery, executeCommitQuery, executeRollbackQuery, executeWriteQuery and
--     executeReadQuery; Query has Query, the idle monitor and Close. Effect, Steps, Classified and
--     Calls say what each part does to the state; Invariant, Isolation, Lifecycle and Monitor have
--     the properties; Roles, RoleSteps and RoleCalls follow the role of a query to its statements;
--     Sample is a small environment to run the model on.
--   Threads: internal/db/db.go again, for calls that run at the same time. Program has a call as
--     the sequence of its accesses (a lock, an unlock, or one change of the state), Exec and Calls
--     the programs of all operations of Db; System has the threads, their moves and the reachable
--     systems. Discipline says what a program holds at each access, ExecObeys, InsideObeys,
--     OutsideObeys and CallsObey that the programs keep to it, Invariant and Reachable what follows
--     in every reachable system, Safety the properties. Solo, SoloExec and SoloCalls relate each
--     program that runs alone to its operation of Db, and Alone puts that into a system; Schedule
--     runs a schedule for the tests.
--   Startup: NewDB of internal/db/db.go (Open), internal/db/connector.go (Connector), and Open,
--     Close and SetAuthorizerRole of internal/sqlite/sqlite.go with newConn of
--     internal/sqlitedrv/driver.go (Connection). Resources counts the handles and contexts of C.
--   Config: internal/config/config.go and internal/validate. Settings has the settings, ToArgs and
--     the tokens, Parse has Parse with its checks, Validate the validators, Regex the regular
--     expressions that they use, Durations and Decimal the printing of numbers; Args reads the
--     arguments back, Access says when the settings leave the server open.
--   Util: internal/util/numutil (Numbers) and internal/util/httputil (Http).
--   Sqlite: Query of internal/sqlite/sqlite.go. Values has the binding and reading of one value,
--     Query the query, Results its properties. The database code takes a query on a connection from
--     `Engine`, so that its properties hold for any; a statement's results are a finite stream,
--     which the two loops follow.
--   Server: internal/server/query.go, query_convert.go and rqlite.go. Base64 has what they use of
--     encoding/base64, Convert the values, Query the requests, Json and Request the statements of a
--     rqlite request, Rqlite their execution, Answer the shape of its answer; Rpc has rpcHandler of
--     rpc.go with the procedures of health.go and stats.go, Status the answers of stats.go, Http
--     the rest of rpc.go and what middleware.go, errors.go and server.go compute; Serve has the
--     routes of createMux over the whole server; Leaves, Parameters, RoundTrip, Transaction,
--     RpcEffect, Guard, History and Serves have their properties.
--   Entrypoint: cmd/entrypoint/main.go. Env has the variables, Shell the quoting, Plan the plan;
--     Words has a reader of POSIX shell words, Start and Credentials what the started process is
--     given.
--
-- How the code is read. A string is a list of code points. ToLower and ToUpper change the letters
-- whose image is ASCII and leave the others, which is exact for the comparisons with ASCII literals
-- that the code makes. An integer of 64 bits is its bit pattern and a float64 its bits. An error is
-- a value that names what the code's message says. A call of `DB` takes the state and ends with a
-- result and a state, or waits for a mutex that is held (`waits`, with the state as it has left
-- it), or is stopped by Go's fatal error on an unlocked mutex (`fatal`). In Db, calls run one at a
-- time, in any order; a call that waits is one that only the end of another call can wake. A round
-- of the cleanup worker of the statistics happens at once, between two calls or accesses, and takes
-- the counts of old minutes with it. In Threads any number of threads make calls one after another,
-- their accesses in any order, with changes of the environment in between. A use of a connection is
-- one access there, as is the reading of the clock with the store or the count that it is for, and
-- every other atomic load and store is an access of its own; which of the threads that wait for a
-- mutex gets it is left open. Definitions are structural recursions, most on their list, but for
-- two that divide: the digits of a number run on fuel that is the number and one more, and
-- IntWithCommas on the depth of its calls, of which eight are enough.
--
-- What is given as a parameter: `Engine` (the pools of database/sql, SQLite with its connections,
-- the clock, the generator of UUIDs), over any type of states of the environment; `Crypto`; `Api`
-- (the functions of C that open and close a connection) with `Ledger` for what they do to the
-- number of handles and contexts; `Host` (the directory and the pings of NewDB); `ArgParser`
-- (go-arg); the command that Litestream runs for its arguments; the texts of HTTP statuses; the
-- decoder of JSON and the renderer of YAML. Of the environment the properties assume, where they
-- say so, that a generated UUID is not empty, for the role of a call the laws of `Keeps`, and of
-- Litestream that it splits the command of -exec as a shell does (`RunsExec`). Of SQLite, the model
-- of a bound value takes from its documentation that a text ends at its first NUL, and that NaN is
-- bound as NULL.
--
-- What is not modelled: the memory of C beyond the handle and the context of a connection, the
-- capacity of the pools and their retries, the matching of paths by net/http beyond their segments,
-- the writing of answers, the reading of arguments, the logger, the order of start and shutdown in
-- cmd/nsqlite, the channel that stops the idle monitor, and the generated code of internal/vdl, but
-- for its dispatch by name behind the decoding of the body and of the input. The times in answers
-- and the log are left out everywhere.
pub mod Prelude
pub mod Stats
pub mod Auth
pub mod Authorizer
pub mod Db
pub mod Server
pub mod Entrypoint
pub mod Sqlite
pub mod Threads
pub mod Config
pub mod Startup
pub mod Util
