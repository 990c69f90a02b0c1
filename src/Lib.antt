-- ===== src/Lib.antt =====
-- microhook runs configured actions on request and records each run. This library models its parts
-- in functions and proves what they promise to each other.
--
-- Parts and files. Paths of the program are relative to the repository's root.
--   Config       internal/config: config.go in Config, load.go in Config/Normalize and Config/Load,
--                validate.go in Config/Validate, with the text of an error in Config/ErrorText,
--                registry.go in Config/Registry and Config/Fallback, and once more with its storage
--                written out in Config/Registry/Shared
--   Auth         internal/auth: service.go in Auth, the context of a request in Auth/Context,
--                tokenformat/tokenformat.go in Auth/TokenFormat, and the base64 of Go's library
--                that it uses in Auth/Base64
--   Storage      internal/storage: types.go in Storage, repository.go in Storage/Rows (checks and
--                conversions) and Storage/Repository (operations), the statements of sqlc/ in
--                Storage/Tables, the opening of the database by sqlite.go in Storage/Sqlite;
--                Storage/Session has transactions and a driver that may fail; Storage/Clones tells
--                nil from empty in what is marshalled
--   Execution    internal/execution: runner.go in Execution/TailBuffer, Execution/Runner,
--                Execution/Environment and Execution/Interrupt, service.go and scheduler.go in
--                Execution/Service, with the state of a service in Execution/Service/State and the
--                identifiers of runs in Execution/RunId
--   App          internal/app/app.go: the start, the shutdown, and what becomes of the database
--   Cli          internal/cli/cli.go and the lines of internal/buildinfo: what a command prints and
--                its exit code in Cli and Cli/Output, the command that serves in Cli/Serve, the
--                completion command and the build in Cli/Completion
--   HttpApi      internal/httpapi/server.go: the handlers and the authentication in HttpApi, the
--                routes and what is observed of a request in HttpApi/Server, the decoding of a
--                body in HttpApi/Decoding, the log of an invocation in HttpApi/Logging
--   Prelude      shared notation, texts as lists of bytes, maps, sorting, white space
--   Tests        every theorem below at a concrete input
--
-- How the parts meet. `Config.Load.check` turns a decoded file into settings and a registry of
-- actions, which are ready in the sense of `Config.Load.Loaded.IsReady`. `Auth.new` makes credentials
-- of the tokens. `Execution.Service.invoke` looks an action up in the registry, records a run
-- through `Storage.Repository`, judges the process by `Execution.Runner.judge`, and records the end.
-- The handlers of `HttpApi` call it for an identity that `HttpApi.authenticate` lets through.
-- `App.start` opens the store, applies the retention, makes the credentials and cancels the runs
-- that an earlier process left running; `Cli.Serve.run_serve` starts it and closes it again.
--
-- State. A Go method on a store or a service is a function of the state before to a result and the
-- state after. A store is the rows of its three tables, and a list that says which of the next calls
-- of the driver fail. A service is a store, the map of the names that run, and the executions that
-- are under way. An execution on a goroutine of its own is a step that comes later: the relation
-- `Execution.Service.Exclusion.Step` interleaves the starts and the ends of executions, in any
-- order; each step of it is atomic. `Execution.Service.Tracking.Invariant.Step` adds restarts, which
-- come at any time, cut off what is under way, apply the retention and recover; there the driver does
-- not fail. In Config/Registry/Shared a slice or a map is a cell of a heap, and a copy is a new cell.
-- There is no fuel: every loop is a recursion on its list.
-- A process is given with its end, so `run_pending` is what happens when it has ended. An execution
-- without a timeout may never end: it is one that stays under way, for which no such step comes, and
-- a synchronous `invoke` is modelled for processes that end. Of a request, the header of the answer
-- and what the log is told are kept apart, and `observe` reads each of its own.
--
-- Parameters, which are arguments of the definitions: SHA-256 (`digest`), `time.ParseDuration`,
-- the file system and the YAML decoder of `load`, the JSON package, random bytes and identifiers,
-- the clock, the driver's faults, the decoding of a request's body, what a process writes and how
-- it ends, and the texts that are printed around numbers and errors. A time is Go's zero value or
-- nanoseconds since 1970. Of the command line the parsed command is given, and so are the texts of
-- helps, the error of `net.Listen` and how serving ends: by itself or after a signal. A writer
-- takes a text as a whole or fails, as a list of Booleans says. Of a request the route is given
-- that chi finds for it; a path below /v1 that chi finds no route for is still behind the
-- authentication, as chi runs the middleware of a router before its answer.
--
-- Not modelled: the matching of paths, the other headers and the other lines of the log of
-- internal/httpapi, the loops of `net/http` that serve; the flags, the templates of helps and the
-- action of the completion command of internal/cli, which github.com/urfave/cli handles; cmd, which
-- only calls internal/cli; the text of the DSN in internal/storage/sqlite.go, the schema's script, and
-- the scanning of rows in internal/storage/sqlc. The messages of a configuration are constructors, and
-- texts only in Config/ErrorText.
pub mod Prelude
pub mod App
pub mod Auth
pub mod Cli
pub mod Config
pub mod Execution
pub mod HttpApi
pub mod Storage
pub mod Tests
