-- ===== src/Lib.antt =====
-- A verification of hambo, a small container orchestrator: a server keeps nodes, containers and
-- join tokens in a bbolt database, its scheduler assigns containers to nodes, and workers enroll
-- with a token, watch their assignments and report the status of their containers.
--
-- How the parts interact. A request reaches a handler of internal/api through its middleware.
-- Handlers read and write the collections of internal/store in one transaction each. The handler
-- that creates a container adds its ID to the queue of internal/queue; the loop of
-- internal/scheduler takes IDs from the queue, assigns each container in a transaction, and
-- notifies the watcher of internal/watch, which wakes the handler that streams a node's
-- assignments. A failed assignment is added to the queue again by a timer.
--
-- Which file models what:
-- - Base: results and errors (errdefs/errors.go, and the sentinels of internal/store/store.go),
--   texts as package strings treats them, lists and sets of names.
-- - Queue: internal/queue/queue.go. MemoryQueue is the record, add, get, done and shut_down its
--   methods. Queue/Timers has AddAfter and all interleavings as a step relation, Queue/Status the
--   status of one name, Queue/Machine its steps, Queue/Fifo the order, Queue/Invariant the
--   well-formedness.
-- - Store: internal/store. Store.antt is the interface that clients use and the laws they rely on;
--   Store/Bolt is what the code relies on of bbolt and encoding/json; Store/Collection has CreateTx,
--   GetTx, UpdateTx, ModifyTx, DeleteTx and ListTx, Store/Tx WriteTx and the methods with a
--   transaction of their own, Store/Laws the theorems on them, Store/Memory an instance to run.
-- - Model: internal/container, internal/node, and the stored half of internal/token; the database
--   as one record of its three collections.
-- - Watch: internal/watch/nodes.go.
-- - Scheduler: internal/scheduler/scheduler.go. select is the loop over the nodes, assign_tx the
--   transaction, assign the whole function; Scheduler/Loop has Run's start and one round.
-- - Token: internal/token/token.go and parse.go.
-- - Files: what package os answers to the calls that create, write, close and remove a file, and to
--   the one that makes directories.
-- - Pki: internal/pki. Pki.antt has the Issue functions of ca.go, Pki/Authority GenerateCA, LoadCA and
--   GenerateNodeCSR, Pki/Save save.go; below it, Pair has the ways through the two files, Undone both
--   of them, Whole and Saved a save as a whole, Within a save that is undone when what follows fails.
-- - CliConfig: internal/cliconfig.
-- - Api: internal/api. Http and Stream are json.go with api/types.go, Construct server.go with
--   options.go, ca.go and handlers.go, Auth middleware.go, Routes routes.go; Join,
--   Session, Report and WatchNode are the handlers of nodes.go, Containers and Tokens those of
--   containers.go and tokens.go.
-- - Server: the transactions of the handlers and of the scheduler on one database, in any order.
-- - Client: client. Client.antt has errors.go and Client.do, Client/Enrollment ca.go and JoinNode,
--   Client/Connect url.go, NewClient, newRequest, the streams, and the method and path of each call.
-- - Worker: internal/worker. State is worker.json, Join the enrollment that may be interrupted and
--   resumed, Start start.go with lock.go, Heartbeat the loop that reports the node's status, Watch
--   the loop that reads the node's assignments, with Run, Docker docker.go.
-- - Resources, SqliteStore: a trace of what a process acquires and gives back, and the two handles
--   of internal/sqlitestore/store.go in it.
-- - Command: Init is cmd/hambo-server/init.go, Serve is serve.go, where Serve/Running has its three
--   goroutines as a step relation, Cli the commands of cmd/hambo and cmd/hambo-worker.
-- - SimpleWorker: cmd/simpleworker, a worker that stands beside the system.
-- - Tests: concrete runs, and each theorem applied once.
--
-- Conventions. A handler is a function from the request, the time, the random bytes and the
-- database to the response and the database. Times are nanoseconds in ℕ. A uint64 sequence number
-- is a ℕ; the server compares and stores it, and where the worker raises it, the wrap-around is
-- written out. Mutexes make each method one step. Whether a transaction can begin and commit is the
-- argument Faults. A write that fails in a collection is an error of the parameter. There is no
-- fuel: every loop that is modelled runs over a list. Of those that do not end, the loop of Run in
-- the scheduler and that of the watch handler are modelled by one round, and the worker's two loops
-- by the lists of the rounds and connections that they meet.
--
-- A file system is a function from paths to what they hold, a directory or a file with its text; a path is text, its directory clean.
-- Errors that are joined are a list, empty for nil. A day of the calendar has 24 hours, as it has where
-- no clock is changed.
--
-- Not modelled: HTTP itself, logging, the decoder of JSON (its outcomes are an argument),
-- cryptography, base64, yaml, Docker, the parsers of durations, URLs and image references
-- (parameters), the flags and the printing of the commands, the TLS configuration of the server,
-- and the path and the options of the SQLite files.
pub mod Base
pub mod Queue
pub mod Store
pub mod Model
pub mod Watch
pub mod Scheduler
pub mod Token
pub mod Pki
pub mod Api
pub mod Server
pub mod Worker
pub mod Client
pub mod Tests
pub mod CliConfig
pub mod Command
pub mod Files
pub mod Resources
pub mod SimpleWorker
pub mod SqliteStore
