-- ===== src/Lib.antt =====
-- Verification of the payment service.
--
-- The service takes payments over HTTP, keeps them in a table, lets a payment provider authorize,
-- capture and refund them, and tells other services by events that go through an outbox table to a
-- broker. This library models its domain, its use cases, its adapters in memory and outside, and its
-- processes, with the laws that they rely on.
--
-- Parts, files and sources:
--   Base          shared helpers: tests, lists, loops, results and errors (Fallible: `M W A` is code that
--                 reads and writes a world W and may fail, with do blocks), int64 (Int: integers over
--                 the native numbers, and wrap64 with add64, sub64, shl64 for Go's wrap-around), maps
--                 (Dict), and what is used of Go's strings (Text, with Text/Decimal about Atoi and
--                 decimal texts).
--   Json          encoding/json as far as it is used: a body is the document that it parses to.
--   Payment       internal/domain/payment: the aggregate and its methods. Payment/Balance has the
--                 invariant of a payment and the arithmetic of refunds, Payment/Lifecycle the state
--                 machine and histories of calls.
--   Usecase       internal/application/usecase. Ports are the ports, Events the events and responses,
--                 Create, Process, Capture, Refund and List the Execute methods. Laws states what they rely
--                 on, Atomic (Changes, Started, Settled) is about the Outbox Pattern, Order about the order in
--                 which they check and act. Transaction is internal/infrastructure/persistence/postgres/tx.go, Mock
--                 is internal/infrastructure/psp/mock.go, Memory is
--                 internal/infrastructure/persistence/memory/payment_repository.go, and InMemory runs
--                 the use cases over these.
--   Outbox        internal/domain/outbox; Outbox/Memory is the outbox repository in memory, Outbox/Relay
--                 internal/application/outbox/relay.go, Outbox/Relay/Delivery what the relay promises.
--   Messaging     internal/infrastructure/messaging/rabbitmq: processWithRetry of dlq.go and the handle
--                 methods of consumer.go and subscriber.go; Messaging/EndToEnd and Messaging/Atomic run
--                 the consumer with ProcessPayment. Messaging/Amqp is how consumer.go, subscriber.go,
--                 publisher.go and dlq.go open, declare, publish and close, Messaging/Topology what they have opened and declared then (Opening,
--                 Sessions, DeadLetters, and Traced, which keeps an account of the calls), Messaging/Consume the loop of Start over a list of signals.
--   Postgres      internal/infrastructure/persistence/postgres. The root has the tables of db/migrations and
--                 the driver; Connection is connection.go, Payments, Events, Logs (audit and notifications),
--                 Subscriptions and Deliveries are the repositories. Tables and Refinement relate them to
--                 what the use cases rely on, Agreement, Backlog and Page to the repositories in memory,
--                 Reading and Retries are about queries, Direct is a server that answers, Wired puts the
--                 repositories under WithinTx, whose transaction they take from the context (Scope),
--                 Refunding runs RefundPayment over it, and Relayed the relay.
--   Config        internal/infrastructure/config/config.go; Config/Loaded is about the numbers it loads.
--   Migrations    internal/database/migrate/runner.go; Slug and Sequence are about the names of files, Creation about what
--                 Create writes.
--   Seeding       internal/database/seeder and internal/database/factory; Seeding/Made is about payments
--                 that the factory makes.
--   Services      cmd/audit, cmd/notification, cmd/webhook and cmd/consumer; Services/Runs is about how a
--                 run ends, Services/Traced with an account of its calls. Services/Start is cmd/api and cmd/outbox, Services/Tools cmd/migrate and
--                 cmd/seed.
--   Idempotency   internal/application/idempotency; Idempotency/Redis is
--                 internal/infrastructure/cache/redis/idempotency_repository.go, Replay what a client may
--                 rely on, Race what two requests at the same time do.
--   Webhook       internal/domain/webhook; Attempt and Service are internal/application/webhook (retry.go,
--                 dispatch.go), Subscriptions its subscription.go, Client is
--                 internal/infrastructure/http/webhookclient/client.go, Memory the webhook repositories in
--                 memory, Backoff and Schedule the life of a delivery.
--   Notification  internal/domain/notification, internal/application/notification and its repository in
--                 memory; Notification/Log has the theorems.
--   Audit         internal/domain/audit, internal/application/audit and its repository in memory;
--                 Audit/Trail has the theorems.
--   Http          internal/infrastructure/http: the handlers of payments and webhooks, and the header
--                 check in front of them; Http/Errors has the theorems, Http/Routes is router.go.
--   Tests         the theorems applied at concrete values.
--
-- How they interact: an HTTP handler calls a use case, for a creation through the idempotency service; a
-- use case writes a payment and an outbox event in one transaction (in PostgreSQL, on the executor that
-- execFromContext picks); the relay publishes the events; the payment consumer reads payment.created and
-- calls ProcessPayment; the webhook, notification and audit services read the events through the
-- subscriber.
--
-- Conventions: a port is a record of functions in the monad M over any world; its behaviour enters a
-- theorem as a record of laws (RepositoryLaws, OutboxLaws, TxLaws, GatewayLaws, PoolLaws, ServerLaws,
-- PublisherLaws, ExecutorLaws, RelayLaws), and Tests instantiates each of these by concrete functions.
-- AmqpLaws and RuntimeLaws are what the account of the calls (Traced) satisfies over any AMQP library, so
-- no behaviour of that library is assumed. The laws of the ports of the use cases are those of a transaction
-- whose failure undoes it and of a table that keeps times as they are; PostgreSQL keeps them up to the
-- rounding of times (KeptLaws) and a commit whose answer is lost, which Refunding has in its statement.
-- Ids and times that the code draws are arguments. Hashes, HMAC, the formats of times and floats, URL
-- parsing, request binding and the compact form that json.Marshal gives a raw body are parameters. A method
-- that mutates its receiver returns the new value. Times are nanoseconds since Go's zero time.
--
-- Bounds: amounts and counters are int64 with wrap-around; IsValid keeps refunds from wrapping. The
-- loop of processWithRetry is recursion on its rounds, which are maxRetries + 1, so no fuel is chosen;
-- the tickers of the relay and of the retries are given a number of ticks, which is recursion on it.
--
-- A SQL statement is a function on the tables: a command answers how many rows it touched, or nothing
-- if a key or a check refuses it. A call of the driver or of the broker may fail at any time; the laws
-- say what a success means, and that a failed read changes nothing. What a TIMESTAMPTZ column keeps of a
-- time is a function of the driver, of which nothing is assumed. A context is the transaction that it
-- carries; a commit may have been made though its answer is an error.
--
-- Not modelled: the checks of UUID, JSON and length in PostgreSQL; the transport of AMQP, of which only the
-- calls of its library and their answers are seen; how gin matches a path; logging and printing; the wiring of the handlers in cmd/api and the parsing of flags; the poller that
-- cmd/webhook starts beside its loop runs alone (Webhook). Keys of Redis do not expire during a run, and
-- a Redis command does not fail.
pub mod Base
pub mod Payment
pub mod Json
pub mod Outbox
pub mod Usecase
pub mod Webhook
pub mod Idempotency
pub mod Messaging
pub mod Audit
pub mod Postgres
pub mod Config
pub mod Migrations
pub mod Seeding
pub mod Services
pub mod Notification
pub mod Http
pub mod Tests
