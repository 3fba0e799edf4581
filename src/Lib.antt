-- ===== src/Lib.antt =====
-- Verification library of the partner integration reliability hub.
--
-- The program takes events from producers, fans each one out to deliveries, one for every
-- destination that wants it, and brings every delivery to an end: success, a terminal failure, or
-- the dead letters. Workers lease a delivery, ask a circuit breaker and a rate limiter, send the
-- request, and record the outcome; a recovery run takes over deliveries whose worker died. All the
-- state is in one DynamoDB table, and the workers meet only there: safety rests on the conditions
-- of its transactions.
--
-- Which file models which part:
--   * Domain: packages/domain/src/index.ts. Types and Records hold its types; Transition is
--     transitionDelivery with permittedTransitions, Status deriveEventStatus, Rate
--     rateLimitDecision, Retry retryDelaySeconds, RetryAfter parseRetryAfter, Classify
--     classifyDeliveryResult, Replay replayEligibility, Policy validatePolicy, Configuration the
--     destinations, versions and definitions that routing reads.
--   * Store: the core table. Keys follows packages/persistence/src/keys.ts, with one map for each
--     family of keys in Tables; a write with its condition is a constructor of Write. Database is
--     what the program relies on of TransactWriteItems, as a record with three laws: a committed
--     transaction found every condition true and applied every write, a cancelled one applied
--     none, and one that ended in another error did either. Memory is one that meets the laws.
--   * Persistence: the operations of DynamoPersistence in packages/persistence/src/index.ts, each
--     a function on the store of any such database. Lease is acquireLease, Attempt startAttempt
--     and defer, Finalize finalizeAttempt, Replace replaceIfVersion, Recovery recoverExpired,
--     Resume resumeDestination, Routing createDelivery and completeRouting, Circuit
--     acquireCircuitPermit and circuitAfterAttempt, RatePermit acquireRatePermit, Rollups
--     rollupUpdates and stableShard. Steps is the relation of any interleaving of them, and
--     Steps/Loops says that the eight rounds of an operation are such steps.
--   * Delivery: DeliveryService.deliver of packages/application/src/index.ts. Service is the whole
--     handler; Call is what a call is given, meets and returns, Deferral its closure `defer`,
--     Stages the stages that end it, Request the request with its secret and headers, Evidence
--     what an attempt keeps of request and response, Failure the errors with their codes and
--     messages, Outcome the next state and what finalises the attempt, Wait how long a message
--     waits that comes too early.
--   * RoutingService: RoutingService.route of the same file. Plan is what one destination gets,
--     Route the loop over destinations and the completion.
--   * Transformation: packages/transformation/src/index.ts. Definition is the schema of a
--     definition in packages/contracts/src/index.ts, Path the read and write along a path, Text
--     the functions on texts, Execute the mappings, Stable the stable serialization.
--   * PartnerHttp: packages/partner-http/src/index.ts: validateUrl, privateIp, the checks of send.
--   * Redaction: packages/redaction/src/index.ts, where redactText is any function.
--   * Snapshot: packages/recovery/src/index.ts: assertSnapshotSafe; Restore is scanTenant,
--     readSnapshotFile and restoreBackup up to its writes.
--   * Json: JsonValue, paths in it and its printing. Text: tests on texts and objects as lists of
--     properties. Prelude: shared names, Boolean tests, lists. Tests: runs at concrete inputs.
--
-- How reads and time are modelled: an operation reads from tables `seen`, which are any tables,
-- since a read may be old and other workers write between a read and a transaction; theorems that
-- need more say so. The clock at a read, which hides what has expired, is an argument. The loops
-- `for (attempt < 8)` are Rounds: eight rounds, as in the code, each with its reads, its clock and
-- what other workers do before its transaction; no other fuel is used, and every function is total.
-- A service takes what it reads and the rounds of each operation that it calls as a record (Visit,
-- RoutingVisit). What a service calls outside the repository or in another process is a function of
-- such a record, as in Outside: the secret store, the tokens, the partner's answer.
--
-- What the runtime gives is a parameter: JSON.parse, the literal of a text, the hash, the case of
-- a text, dates, the parser of a URL, net.isIP, the resolver of names, and the lines and checksum of
-- a file of a snapshot.
--
-- What is simplified: identifiers, hashes and names that the code only compares are natural
-- numbers, and `spell` gives the characters of one where the code hashes them; instants are
-- milliseconds since the epoch, and the clock does not go back within one handler. The rate
-- limiter's increment and the retry delay are exact fractions where the code has floating point,
-- policies hold whole numbers, and so does a Retry-After in seconds. The stable serialization
-- compares names by code points where the code compares UTF-16 units; a surrogate pair that the
-- 16 KiB limit of evidence cuts, and properties that an object inherits, are left out. The item's
-- type and schema version, the shard in the key of an outbox item (a function of its identifier),
-- and the sweep by which DynamoDB removes expired items are left out. A request that names an
-- undefined lease token is rejected by the client.
--
-- What is not modelled: finalizeSuccess and appendAttemptAndHistory, which no service calls; the
-- other services of packages/application/src/index.ts (ingestion, replays), the outbox claims, the
-- workers and the queue, redactText, the manifest of a snapshot and the writes of a restore, the
-- control plane and the portability of configurations; and, as I/O or wiring, the API, the console,
-- the command lines, observability, secrets, mock partners and the infrastructure.
pub mod Prelude
pub mod Json
pub mod Domain
pub mod Store
pub mod Persistence
pub mod Text
pub mod PartnerHttp
pub mod Redaction
pub mod Snapshot
pub mod Transformation
pub mod RoutingService
pub mod Delivery
mod Tests
