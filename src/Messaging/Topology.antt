-- ===== src/Messaging/Topology.antt =====
-- The account of the calls that the constructors of internal/infrastructure/messaging/rabbitmq make of the
-- AMQP library, what it means to keep it, and how declarations are chained.
pub mod Opening
pub mod Traced
pub mod Sessions
pub mod DeadLetters
use mathlib.Core.List.{append_assoc, append-nil}
use mathlib.Core.Path.{subst}
use payment_service.Base.{
  ℕ, suc, ◌+◌, ◌-◌, ◌≡◌, ◌≢◌, refl, ap, sym, ◌∙◌, ◌⊎◌, inl, inr, String, ◌<>◌, Option, none, some,
  List, [], ◌∷◌, ◌++◌, M, Result, ok, err, Error, after_call, add_text, wrap_error, ◌>>=◌, ◌>>◌,
  pure, arith, str_eq, Bool, ◌&&◌, if◌then◌else◌,
}
use payment_service.Config.{RabbitMqConfig, url}
use payment_service.Messaging.Amqp.{
  Amqp, DeadLetter, Delivery, Session, session_of, dlx_name, dlq_name, declare_dlq, declare_queue,
  bind_all, with_session, closing_both, closing_connection, new_subscriber, new_payment_consumer,
  new_payment_publisher, close, routing_key,
}

pub data Declared : Type 0 where
  exchange : String → String → Declared
  queue : String → Option DeadLetter → Declared
  binding : String → String → String → Declared

-- An account of the calls of a process: the connections and channels that it was given and has not called
-- Close on, the declarations that the broker answered without an error, and the deliveries on which it
-- called Ack or Nack.
pub record Wire : Type 0 where
  pub connections : ℕ
  pub channels : ℕ
  pub declared : List Declared
  pub settled : List Delivery

abbrev pub SameOpen : Wire → Wire → Type 0
SameOpen a b = (b.connections ≡ a.connections) × (b.channels ≡ a.channels) × (b.settled ≡ a.settled)

abbrev pub declare : List Declared → Wire → Wire
declare ds a = record a { declared = a.declared ++ ds }

abbrev pub one_connection : Wire → Wire
one_connection a = record a { connections = suc a.connections }

abbrev pub one_channel : Wire → Wire
one_channel a = record a { channels = suc a.channels }

module _ {W : Type 0} (view : W → Wire) where
  -- A call that declares `ds` and answers `a`, or fails and leaves open what was.
  abbrev pub Made : {A : Type 0} → List Declared → A → Wire → Result A × W → Type 0
  Made ds a before (ok x, w) = (x ≡ a) × (view w ≡ declare ds before)
  Made ds a before (err e, w) = SameOpen before (view w)

  -- A call that opens something, or nothing.
  abbrev pub Opens : {A : Type 0} → (Wire → Wire) → Wire → Result A × W → Type 0
  Opens grown before (ok x, w) = view w ≡ grown before
  Opens grown before (err e, w) = SameOpen before (view w)

  pub record AmqpLaws {C H : Type 0} (amqp : Amqp W C H) : Type 0 where
    pub dials : (url : String) (w : W) → Opens one_connection (view w) (amqp.dial url w)
    pub channels : (c : C) (w : W) → Opens one_channel (view w) (amqp.channel c w)
    pub exchanges :
        (ch : H) (name kind : String) (w : W)
        → Made (exchange name kind ∷ []) tt (view w) (amqp.exchange_declare ch name kind w)
    pub queues :
        (ch : H) (name : String) (args : Option DeadLetter) (w : W)
        → Made (queue name args ∷ []) tt (view w) (amqp.queue_declare ch name args w)
    pub binds :
        (ch : H) (name key from : String) (w : W)
        → Made (binding name key from ∷ []) tt (view w) (amqp.queue_bind ch name key from w)
    pub prefetches : (ch : H) (n : ℕ) (w : W) → Made [] tt (view w) (amqp.qos ch n w)
    pub channel-closes :
        (ch : H) (w : W)
        → view (amqp.close_channel ch w) ≡ record (view w) { channels = (view w).channels - 1 }
    pub connection-closes :
        (c : C) (w : W)
        → view (amqp.close_connection c w).1
          ≡ record (view w) { connections = (view w).connections - 1 }

  pub Made-wrap :
      {A : Type 0} (text : String) (ds : List Declared) (a : A) (before : Wire) (x : Result A × W)
      → Made ds a before x
      → Made ds a before (add_text text x)
  Made-wrap text ds a before (ok y, w) h = h
  Made-wrap text ds a before (err e, w) h = h

  pub Made-shift :
      {A : Type 0} (ds es : List Declared) (a : A) (before : Wire) (x : Result A × W)
      → Made es a (declare ds before) x
      → Made (ds ++ es) a before x
  Made-shift ds es a before (ok y, w) h = (h.0, rw (← append_assoc before.declared ds es) h.1)
  Made-shift ds es a before (err e, w) h = h

  pub Made-bind :
      {A B : Type 0} (ds es : List Declared) (a : A) (b : B) (before : Wire) (x : Result A × W)
      (f : A → M W B)
      → Made ds a before x
      → ((w : W) → Made es b (view w) (f a w))
      → Made (ds ++ es) b before (after_call x f)
  Made-bind ds es a b before (err e, w) f h k = h
  Made-bind ds es a b before (ok y, w) f h k =
      rw (h.0) (Made-shift ds es b before (f a w) (subst (λ v. Made es b v (f a w)) h.1 (k w)))
