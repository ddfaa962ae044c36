-- ===== src/Lib.antt =====
-- Bablo: the money of the gateway, the choice of credentials for its requests, and its limiters.
--
-- Bablo is a gateway to language models with prepaid wallets. Before a request goes upstream,
-- Service.Reserve prices its estimate and moves that amount from the available to the reserved
-- balance of a wallet; afterwards Service.Settle charges the usage that was observed and gives the
-- rest of the hold back, or Service.Release gives all of it back. Service.Credit adds money, which
-- first pays the open liabilities of the wallet. Each change of a balance is an entry of an
-- immutable ledger, so that the balances of a wallet are a projection that can be rebuilt.
--
-- A request is served with one of the credentials of a route. Scheduler.Select gathers the targets
-- of the route and the members of their pools, with the reasons that speak against each, orders
-- the eligible ones by priority and by the strategy, tries to lease a slot of one after the other
-- from the coordinator, and records its decision. Before that, limiters bound the requests and
-- tokens of an API key in a minute, and the attempts to log in. Facts of usage reach other systems
-- through an outbox, whose events workers claim for a while, deliver and acknowledge.
--
-- Files, below Billing:
--   Model       internal/billing/model.go, and what it names of internal/pricing and internal/usage
--   Money       internal/billing/money.go: decimal prices, minor units, rounding
--   Quote       internal/billing/money.go: calculateQuote
--   Store       the tables (Store/Tables), transactions of internal/data/database.go (Store/Tx) and
--               the helpers of internal/billing/repository.go that run SQL (Store/Statements)
--   Reserve, Settle, Release, Credit   the methods of internal/billing/repository.go
--   Liability   internal/billing/liability.go
--   Service     internal/billing/service.go; Service/History, sequences of calls
--   Books       what holds of the tables between two of these transactions while no refund is held,
--               and how they change together
--   Tests       the theorems at concrete books
-- Below Scheduler, for internal/scheduler:
--   Model        model.go, and what it names of internal/route, model, provider and credential
--   Normalize    service.go: normalizeRequest
--   Eligibility  service.go: the reasons against targets and members, quotas
--   Order        service.go: groups, comparisons, rotation and weights
--   Ordering     service.go: orderCandidates, with the cursors of the coordinator
--   Ports        the interfaces Coordinator and DecisionLogger, the repository, the clock, uuid
--   Gather       service.go: the first loop of Select
--   Select       service.go: Select, from the affinity to the recording of the decision
--   Coordinator  coordinator.go: memoryCoordinator and memoryLease
--   InMemory     Select with that coordinator
--   Sample, Running, Tests   a route to run the scheduler on, and the theorems at it
-- Below Limits:
--   Window   internal/apikey/limiter.go: memoryLimiter
--   Login    internal/auth/limiter.go: LoginLimiter
--   Tests    the limiters at concrete windows and entries
-- Below Usage, for internal/usage:
--   Outbox          repository.go: ClaimOutbox, MarkOutboxPublished, MarkOutboxFailed
--   Outbox/Service  service.go: the checks before them
--   Tests           the outbox at three rows
--
-- A function of the source keeps its name in snake_case; a method that is long is divided, in the
-- order of its statements, into functions that call the next. A transaction is a function from the
-- database to a result and the database after it, and a Go error is a value of Error; any error of
-- the driver is `repository`. An int64 is an integer, and arithmetic on it wraps around (add64,
-- sub64, neg64). A big.Int is an integer or, where it is not negative, a natural number. A text is
-- its list of code points; ToUpper is exact where the result is ASCII. A time is a number of
-- seconds since 1970. A UUID is a number, with 0 for uuid.Nil; its text form is a parameter
-- (Env.uuid_text), as that of google/uuid. Identifiers are drawn from a supply (Db.ids), of which
-- nothing is assumed: an empty supply is a failure of the random source, and a number that is taken
-- makes the insert fail. All functions recurse on a list or not at all, but for the loop of the
-- login limiter, whose fuel is one round more than there are entries (make_room_ends: enough), and
-- strconv.Itoa, which has as many rounds as the number and one.
--
-- A table is a list of rows. The primary and unique keys that an insert can violate are checked by
-- it. CHECK constraints, foreign keys and triggers of the migrations are not modelled: the theorems
-- show that the code keeps the balances in range without them. Transactions run one after the
-- other, as the advisory and row locks of the code arrange for one wallet, and a rollback restores
-- the tables but not the identifiers drawn. Payloads of outbox events, the lease columns of a
-- settlement and the argument conversions of the driver are left out.
--
-- The invariant of the books does not hold while the hold of a payment refund is outstanding
-- (HoldPaymentRefundInTx of internal/billing/payment.go, which is not modelled): it moves an amount
-- to the reserved balance without a reservation. Whether a transaction begins, and whether its
-- commit fails or succeeds with its answer lost, is given by the database (Db.fates); that a rollback
-- restores the tables is assumed of PostgreSQL, in with_tx.
--
-- In Scheduler, Limits and Usage a time is a number of nanoseconds since Go's zero time. Select runs
-- over any state of its ports; it is one function, while calls of other requests may come between its calls of the
-- coordinator: what the coordinator promises under all interleavings of its calls is proved of the
-- coordinator, whose mutex makes each call one step (Coordinator/Exclusion). sort.SliceStable is
-- the insertion that Go does on up to 20 items. A context that is done is a Boolean argument.
--
-- In Usage the outbox is a list of rows whose transactions follow one another, so that SKIP LOCKED
-- skips none; the database answers, the attempts of a row do not reach 2^31, and a claim returns its
-- candidates in their order, of which the statement says nothing.
--
-- Not modelled: the coordinator and the limiters on Redis, which run Lua scripts on a server; the
-- SQL of the scheduler's repository; payment refunds and the recovery of settlements; the ledger of usage; the other
-- packages.

pub mod Prelude
pub mod Billing
pub mod Scheduler
pub mod Limits
pub mod Usage
