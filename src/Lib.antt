-- ===== src/Lib.antt =====
-- A task manager service: users, teams, tasks with a history of changes, and comments, over MySQL
-- with a Redis cache of task lists.
--
-- The parts and the files that model them, with the code of the repository:
--   Entity       internal/entity: roles, task statuses and the rows of the tables.
--   Dto          internal/dto: requests and responses, the checks of each request
--                (`Validate`), the filter of the task list (`BindTaskFilter`, `Offset`).
--   Store        the tables of migrations/0001_init.up.sql, the errors, the outside world and the
--                calls of the driver; `within_tx` is `WithinTx` of internal/service/transactor.go.
--   Repository   internal/repository: each SQL statement as a function of the tables, and each
--                method as the calls it makes, with the errors it returns.
--   Cache        internal/cache/redis.go: the interface and its implementation over a client.
--   Service      internal/service: Access (the check that a caller may see a task), Audit
--                (`buildPatchRich`, `buildHistoryEntries`), Tasks, TaskCache, Comments, Teams, Auth,
--                Stats.
--   Token        internal/auth/jwt.go: claims, issuing and parsing of tokens.
--   Password     internal/auth/jwt.go: the password hasher over bcrypt.
--   Config       internal/config/config.go: the settings with their defaults and variables, the
--                check `validate` and `load`.
--   Middleware   internal/middleware/auth.go: the check of the bearer token; RateLimit is
--                internal/middleware/ratelimit.go, with the bucket of one user in Own, and Metrics
--                is internal/middleware/metrics.go.
--   Handler      internal/handler: the errors and the task routes; Accounts (auth.go), Teams,
--                Comments and Stats are the other routes.
--   Router       internal/router/router.go: the routes under /api/v1 behind their middleware, and
--                `serve_all`, which serves requests one after another; Cases says how every handler
--                is built from the services, Table is the registration of the routes with gin,
--                Counted is the serving of any request with the counters around it, and Outsiders
--                is about the routes of one task.
--   Authority    the abstract view of the routes: the steps that a user has the right to take
--                (`Step`), the services and routes as such steps, by the rules of Store/Triples,
--                and the rows of one team (`view`).
--   Startup      cmd/app/main.go, internal/storage/mysql.go and the opening of
--                internal/cache/redis.go: what the program opens, serves and closes.
--   Migrate      cmd/migrate/main.go: the commands, their calls of golang-migrate, the exit code.
--   Invariant    what the program keeps of the tables: the statements, then the calls, the services
--                and the routes, by the rules of Store/Keeps and Handler/Keeps.
--   Base, Text   shared names, Go's `int` as an integer with its wrap-around, and the functions of
--                strings and strconv that the code uses.
--   Tests        concrete runs.
--
-- A handler's request is one function of a state `World`: the tables, the next AUTO_INCREMENT
-- values (which a rollback does not take back), the state of the cache server, and a counter of
-- the calls of the clock and of the driver. `Env` decides, by that counter, what time it is and
-- which calls fail; theorems about failures hold for every `Env`. It also holds the comparison of
-- strings by a collation, what a TIMESTAMP column keeps of a time, the answer to a negative LIMIT
-- or OFFSET, the printing of times, and the JSON coding of a list. The cache server, bcrypt, the
-- parsing of addresses, the package of tokens and the JSON binding of a body are arguments.
--
-- Strings are lists of bytes, identifiers and times natural numbers, `int` an integer whose
-- operations wrap at 2^63. Go's `uint64` identifiers only appear where they are parsed, and the
-- parser keeps them below 2^64. Loops are structural recursion; the digits of a number are made on
-- fuel n + 1, more than the number of digits of n, and the invalidation of a list runs its 100
-- rounds as the code writes them. A statement that a column's length refuses is a failed call.
--
-- Requests run one after another: interleavings of the statements of two requests are not modelled.
-- A request is the route that gin has matched with the parameter, the query, the bound body and the
-- header, or one of the health, ping and metrics routes, or one that no route matches. An address
-- that differs from a route's by a slash at its end is redirected by gin before any of the
-- middleware runs: it is answered without being counted. A panic is an ending of its own: of a
-- request, by Recovery, an empty answer of 500 that the counters do not see, and of the program,
-- after what it has deferred. The limiter is always there, as cmd/app/main.go makes one; the
-- collection of its idle entries comes at any point between requests.
--
-- Not modelled: the constructors that hand one part to another, the log lines, and the interfaces of
-- internal/service/interfaces.go, which have no code. The token bucket, the floating-point rate, the
-- printing of a time by the database, Viper, gin's tree of routes, golang-migrate, and what the
-- database, Redis, the server and the signals do at the start and the end of the program are
-- arguments.
pub mod Base
pub mod Text
pub mod Entity
pub mod Dto
pub mod Store
pub mod Repository
pub mod Cache
pub mod Password
pub mod Token
pub mod Config
pub mod Middleware
pub mod Service
pub mod Handler
pub mod Invariant
pub mod Authority
pub mod Migrate
pub mod Startup
pub mod Router
pub mod Tests
