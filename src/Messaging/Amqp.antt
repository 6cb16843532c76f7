-- ===== src/Messaging/Amqp.antt =====
-- internal/infrastructure/messaging/rabbitmq: how the subscriber, the payment consumer and the publisher
-- open a connection, declare what they need and close again (subscriber.go, consumer.go,
-- publisher.go, dlq.go), over the calls of the AMQP library.
use payment_service.Base.{
  ℕ, String, ◌<>◌, Option, none, some, List, [], ◌∷◌, M, Result, ok, err, ◌>>=◌, ◌>>◌, pure,
  wrap_error,
}
use payment_service.Payment.{Payment}
use payment_service.Json.{Body}
use payment_service.Config.{RabbitMqConfig, url}
use payment_service.Usecase.Events.{TimeFormat, payment_payload}

-- The arguments of a queue that send its rejected messages on.
pub record DeadLetter : Type 0 where
  pub exchange : String
  pub routing_key : String

-- amqp.Delivery, as far as it is read.
pub record Delivery : Type 0 where
  pub message_id : String
  pub routing_key : String
  pub body : Body

-- The calls of amqp091-go. Exchanges and queues are durable, and no flag is ever set on them; the error
-- of a channel's Close is dropped wherever it is called.
pub record Amqp (W C H : Type 0) : Type 0 where
  pub dial : String → M W C
  pub channel : C → M W H
  pub exchange_declare : H → String → String → M W (Unit {0})
  pub queue_declare : H → String → Option DeadLetter → M W (Unit {0})
  pub queue_bind : H → String → String → String → M W (Unit {0})
  pub qos : H → ℕ → M W (Unit {0})
  pub publish : H → String → String → String → Body → M W (Unit {0})
  pub close_channel : H → W → W
  pub close_connection : C → M W (Unit {0})

abbrev exchange_type : String
exchange_type = "topic"

-- routingKey
abbrev pub routing_key : String
routing_key = "payment.created"

abbrev prefetch_count : ℕ
prefetch_count = 10

unfoldable pub dlx_name : String → String
dlx_name exchange = exchange <> ".dlx"

unfoldable pub dlq_name : String → String
dlq_name queue = queue <> ".dlq"

pub record Session (C H : Type 0) : Type 0 where
  pub connection : C
  pub channel : H

abbrev pub session_of : {C H : Type 0} → C → H → Session C H
session_of conn ch = record { connection = conn; channel = ch }

module _ {W C H : Type 0} (amqp : Amqp W C H) where
  -- declareDLQ
  unfoldable pub declare_dlq : H → String → String → M W DeadLetter
  declare_dlq ch exchange queue = do
    wrap_error "declare dlx" (amqp.exchange_declare ch (dlx_name exchange) "direct")
    wrap_error "declare dlq" (amqp.queue_declare ch (dlq_name queue) none)
    wrap_error "bind dlq" (amqp.queue_bind ch (dlq_name queue) queue (dlx_name exchange))
    pure (record { exchange = dlx_name exchange; routing_key = queue })

  -- On an error both are closed, and their own errors are dropped.
  abbrev pub closing_both : {A : Type 0} → C → H → Result A × W → Result A × W
  closing_both conn ch (ok a, w) = (ok a, w)
  closing_both conn ch (err e, w) =
      (err e, (amqp.close_connection conn (amqp.close_channel ch w)).1)

  abbrev pub closing_connection : C → Result H × W → Result H × W
  closing_connection conn (ok ch, w) = (ok ch, w)
  closing_connection conn (err e, w) = (err e, (amqp.close_connection conn w).1)

  -- The first lines of each constructor, and then its declarations, each of which closes both on its
  -- error.
  abbrev pub with_session : RabbitMqConfig → (H → M W (Unit {0})) → M W (Session C H)
  with_session cfg declare = do
    conn ← wrap_error "connect to rabbitmq" (amqp.dial (url cfg))
    ch ← λ w. closing_connection conn (wrap_error "open rabbitmq channel" (amqp.channel conn) w)
    λ w. closing_both conn ch (declare ch w)
    pure (session_of conn ch)

  abbrev pub declare_queue : H → String → String → M W (Unit {0})
  declare_queue ch exchange queue = do
    wrap_error "declare exchange" (amqp.exchange_declare ch exchange exchange_type)
    args ← declare_dlq ch exchange queue
    wrap_error "declare queue" (amqp.queue_declare ch queue (some args))

  -- for _, key := range bindingKeys
  abbrev pub bind_all : H → String → String → List String → M W (Unit {0})
  bind_all ch exchange queue [] = pure tt
  bind_all ch exchange queue (key ∷ keys) = do
    wrap_error ("bind queue \"" <> key <> "\"") (amqp.queue_bind ch queue key exchange)
    bind_all ch exchange queue keys

  -- NewSubscriber
  unfoldable pub new_subscriber : RabbitMqConfig → String → List String → M W (Session C H)
  new_subscriber cfg queue keys = with_session cfg λ ch. do
    declare_queue ch cfg.exchange queue
    bind_all ch cfg.exchange queue keys
    wrap_error "set qos" (amqp.qos ch prefetch_count)

  -- NewPaymentConsumer
  unfoldable pub new_payment_consumer : RabbitMqConfig → M W (Session C H)
  new_payment_consumer cfg = with_session cfg λ ch. do
    declare_queue ch cfg.exchange cfg.queue
    wrap_error "bind queue" (amqp.queue_bind ch cfg.queue routing_key cfg.exchange)
    wrap_error "set qos" (amqp.qos ch prefetch_count)

  -- NewPaymentPublisher
  unfoldable pub new_payment_publisher : RabbitMqConfig → M W (Session C H)
  new_payment_publisher cfg = with_session cfg λ ch. do
    declare_queue ch cfg.exchange cfg.queue
    wrap_error "bind queue" (amqp.queue_bind ch cfg.queue routing_key cfg.exchange)

  -- Close of each: the error of the connection is the answer.
  unfoldable pub close : Session C H → M W (Unit {0})
  close s w = amqp.close_connection s.connection (amqp.close_channel s.channel w)

  -- PaymentPublisher.Publish; the time stamp of the message is left out.
  unfoldable pub publish : H → String → String → String → Body → M W (Unit {0})
  publish ch exchange key message_id body =
      wrap_error "publish event" (amqp.publish ch exchange key message_id body)

  -- PaymentPublisher.PublishCreated, with the new message id.
  unfoldable pub publish_created : TimeFormat → H → String → String → Payment → M W (Unit {0})
  publish_created format ch exchange message_id p = do
    stamp ← wrap_error "marshal event" (λ w. (format p.created_at, w))
    publish ch exchange routing_key message_id (payment_payload p stamp)
