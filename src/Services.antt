-- ===== src/Services.antt =====
-- The processes that read events: cmd/audit/main.go, cmd/notification/main.go, cmd/webhook/main.go and
-- cmd/consumer/main.go. Each opens a pool and a session at the broker, runs its loop, and closes both
-- when its context ends; log.Fatal leaves at once. What the loop receives is a list of signals, and the
-- times and ids of a run are drawn when it begins.
pub mod Runs
pub mod Traced
pub mod Tools
pub mod Start
use payment_service.Base.{
  ℕ, Bool, true, false, String, Option, none, some, List, [], ◌∷◌, M, Result, ok, err, Error, cause,
  value, ◌>>=◌, pure, str_eq, if◌then◌else◌, other,
}
use payment_service.Base.Int.{ℤ}
use payment_service.Payment.{Payment, Time}
use payment_service.Json.{Body, TimeParser}
use payment_service.Config.{Config, PostgresConfig}
use payment_service.Postgres.Connection.{Pools, new_pool}
use payment_service.Messaging.{Verdict, handle_message, handle_payment}
use payment_service.Messaging.Amqp.{
  Amqp, Session, Delivery, new_subscriber, new_payment_consumer, close,
}
use payment_service.Messaging.Consume.{Signal, start, canceled}
use payment_service.Usecase.Events.{TimeFormat}
use payment_service.Usecase.Process.{ProcessPayment}
use payment_service.Usecase.Process
use payment_service.Audit.{AuditEntry}
use payment_service.Audit
use payment_service.Notification.{Notification, FloatFormat}
use payment_service.Notification
use payment_service.Webhook.{Hmac}
use payment_service.Webhook.Attempt.{BackoffPolicy}
use payment_service.Webhook.Service.{Ports}
use payment_service.Webhook.Service

-- What the services bind their queues to.
abbrev pub final_events : List String
final_events = "payment.completed" ∷ "payment.failed" ∷ "payment.refunded" ∷ []

abbrev pub all_events : List String
all_events = "payment.*" ∷ []

-- How a process ends; `waiting` while its loop waits for more.
pub data Exit : Type 0 where
  clean waiting : Exit
  fatal : Error → Exit

-- errors.Is(err, context.Canceled)
abbrev is_other : String → Error → Bool
is_other text (other s) = str_eq s text
is_other text _ = false

unfoldable pub is_canceled : Error → Bool
unfolding cause
is_canceled e = is_other "context canceled" (cause e)

-- The worlds of pgxpool and of the broker, Channel.Consume, and Ack and Nack.
pub record Runtime (W P C H : Type 0) : Type 0 where
  pub pools : Pools W P
  pub amqp : Amqp W C H
  pub consume : H → String → M W (Unit {0})
  pub settle : Delivery → Verdict → M W (Unit {0})

module _ {W P C H : Type 0} (rt : Runtime W P C H) where
  -- The deferred calls, the last one first.
  abbrev pub release : P → Session C H → W → W
  release pool s w = rt.pools.close pool (close rt.amqp s w).1

  abbrev pub leave : P → Session C H → Option Error × W → Exit × W
  leave pool s (none, w) = (waiting, w)
  leave pool s (some e, w) = if is_canceled e then (clean, release pool s w) else (fatal e, w)

  abbrev pub serve :
      String → (Delivery → W → Verdict × W) → List Signal → P → Result (Session C H) × W → Exit × W
  serve queue handle signals pool (err e, w) = (fatal e, w)
  serve queue handle signals pool (ok s, w) =
      leave pool s (start handle rt.settle (rt.consume s.channel queue) signals w)

  abbrev pub connected :
      M W (Session C H)
      → String
      → (Delivery → W → Verdict × W)
      → List Signal
      → Result P × W
      → Exit × W
  connected session queue handle signals (err e, w) = (fatal e, w)
  connected session queue handle signals (ok pool, w) = serve queue handle signals pool (session w)

  -- The lines that the four main functions share.
  unfoldable pub run_service :
      PostgresConfig
      → M W (Session C H)
      → String
      → (Delivery → W → Verdict × W)
      → List Signal
      → W
      → Exit × W
  run_service cfg session queue handle signals w =
      connected session queue handle signals (new_pool rt.pools cfg w)

  module _ (cancelled : ℕ → Bool) (cfg : Config) where
    -- A service that reads with a Subscriber: its queue, its keys and its handler.
    unfoldable pub subscribe :
        String → List String → (Delivery → M W (Unit {0})) → List Signal → W → Exit × W
    unfolding run_service
    subscribe queue keys handler signals w =
        run_service cfg.postgres (new_subscriber rt.amqp cfg.rabbit_mq queue keys) queue
          (λ d. handle_message cancelled cfg.rabbit_mq.max_retries (handler d)) signals w

    -- cmd/audit
    unfoldable pub audit_main :
        Audit.Digest → (AuditEntry → M W (Unit {0})) → (W → Time × W) → List Signal → W → Exit × W
    unfolding subscribe
    audit_main digest append clock =
        subscribe cfg.audit_queue all_events λ d. do
          now ← value clock
          Audit.execute digest append d.message_id d.routing_key d.body now

    -- cmd/notification
    unfoldable pub notification_main :
        Notification.Digest
        → FloatFormat
        → (Notification → M W (Unit {0}))
        → (Notification → M W (Unit {0}))
        → (W → Time × W)
        → List Signal
        → W
        → Exit × W
    unfolding subscribe
    notification_main digest float send save clock =
        subscribe cfg.notification.queue final_events λ d. do
          now ← value clock
          at ← value clock
          Notification.execute digest float send save cfg.notification.channel d.routing_key d.body
              now at

    -- cmd/webhook, without the poller that it starts beside the loop.
    unfoldable pub webhook_main : Service.Digest → Hmac → Ports W → List Signal → W → Exit × W
    unfolding subscribe
    webhook_main digest hmac ports = subscribe cfg.webhook.queue final_events λ d.
        Service.execute digest hmac
          (record {
            max_attempts = cfg.webhook.retry.max_attempts;
            base_delay = cfg.webhook.retry.base_delay;
          })
          ports d.routing_key d.body

    -- cmd/consumer; the id and the time of a new event are drawn for each run.
    unfoldable pub consumer_main :
        TimeFormat
        → TimeParser
        → ProcessPayment W
        → (W → (String × Time) × W)
        → List Signal
        → W
        → Exit × W
    unfolding run_service
    consumer_main format parse process draw =
        run_service cfg.postgres (new_payment_consumer rt.amqp cfg.rabbit_mq) cfg.rabbit_mq.queue
          λ d.
            handle_payment cancelled cfg.rabbit_mq.max_retries parse
              (λ input. do new ← value draw; Process.execute format process input new.0 new.1)
              d.body
