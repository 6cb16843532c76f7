-- ===== src/Messaging/Topology/Sessions.antt =====
-- What the constructors of internal/infrastructure/messaging/rabbitmq declare and leave open, on every
-- path, over a broker that does what the AMQP library documents.
use mathlib.Core.List.{append-nil}
use payment_service.Base.{
  refl, ap, sym, String, Option, none, some, List, [], ◌∷◌, ◌++◌, wrap_error, pure,
}
use payment_service.Config.{RabbitMqConfig}
use payment_service.Messaging.Amqp.{
  Amqp, DeadLetter, dlx_name, dlq_name, declare_dlq, declare_queue, bind_all, new_subscriber,
  new_payment_consumer, new_payment_publisher, routing_key,
}
use payment_service.Messaging.Topology.Opening.{session, with_session-Opens}
use payment_service.Messaging.Topology.{
  Declared, exchange, queue, binding, Wire, Made, Opens, AmqpLaws, Made-wrap, Made-bind,
}

-- The dead letter exchange and queue.
abbrev pub dlq_declared : String → String → List Declared
dlq_declared from name =
    exchange (dlx_name from) "direct"
    ∷ queue (dlq_name name) none
    ∷ binding (dlq_name name) name (dlx_name from)
    ∷ []

abbrev pub dead_letter_of : String → String → DeadLetter
dead_letter_of from name = record { exchange = dlx_name from; routing_key = name }

-- What every constructor declares before its bindings.
abbrev pub queue_declared : String → String → List Declared
queue_declared from name =
    (exchange from "topic" ∷ [])
    ++ dlq_declared from name
    ++ (queue name (some (dead_letter_of from name)) ∷ [])

abbrev pub bindings : String → String → List String → List Declared
bindings from name [] = []
bindings from name (key ∷ keys) = binding name key from ∷ bindings from name keys

module _ {W : Type 0} (view : W → Wire) where
  module _ {C H : Type 0} (amqp : Amqp W C H) (L : AmqpLaws view amqp) where
    exchange-Made :
        (text : String) (ch : H) (name kind : String) (w : W)
        → Made view
            (exchange name kind ∷ [])
            tt
            (view w)
            (wrap_error text (amqp.exchange_declare ch name kind) w)
    exchange-Made text ch name kind w =
        Made-wrap view text (exchange name kind ∷ []) tt (view w)
          (amqp.exchange_declare ch name kind w) (L.exchanges ch name kind w)

    queue-Made :
        (text : String) (ch : H) (name : String) (args : Option DeadLetter) (w : W)
        → Made view
            (queue name args ∷ [])
            tt
            (view w)
            (wrap_error text (amqp.queue_declare ch name args) w)
    queue-Made text ch name args w =
        Made-wrap view text (queue name args ∷ []) tt (view w) (amqp.queue_declare ch name args w)
          (L.queues ch name args w)

    binding-Made :
        (text : String) (ch : H) (name key from : String) (w : W)
        → Made view
            (binding name key from ∷ [])
            tt
            (view w)
            (wrap_error text (amqp.queue_bind ch name key from) w)
    binding-Made text ch name key from w =
        Made-wrap view text (binding name key from ∷ []) tt (view w)
          (amqp.queue_bind ch name key from w) (L.binds ch name key from w)

    pure-Made : {A : Type 0} (a : A) (w : W) → Made view [] a (view w) (pure a w)
    pure-Made a w =
        (refl, ap (λ ds. record (view w) { declared = ds }) (sym (append-nil (view w).declared)))

    declare_dlq-Made :
        (ch : H) (from name : String) (w : W)
        → Made view
            (dlq_declared from name)
            (dead_letter_of from name)
            (view w)
            (declare_dlq amqp ch from name w)
    unfolding declare_dlq
    declare_dlq-Made ch from name w =
        let args = dead_letter_of from name in
        Made-bind view (exchange (dlx_name from) "direct" ∷ []) _ tt args (view w) _ _
          (exchange-Made "declare dlx" ch (dlx_name from) "direct" w)
          λ w.
            Made-bind view (queue (dlq_name name) none ∷ []) _ tt args (view w) _ _
              (queue-Made "declare dlq" ch (dlq_name name) none w)
              λ w.
                Made-bind view (binding (dlq_name name) name (dlx_name from) ∷ []) [] tt args
                  (view w) _ _ (binding-Made "bind dlq" ch (dlq_name name) name (dlx_name from) w)
                  λ w. pure-Made args w

    declare_queue-Made :
        (ch : H) (from name : String) (w : W)
        → Made view (queue_declared from name) tt (view w) (declare_queue amqp ch from name w)
    declare_queue-Made ch from name w =
        Made-bind view (exchange from "topic" ∷ []) _ tt tt (view w) _ _
          (exchange-Made "declare exchange" ch from "topic" w)
          λ w.
            Made-bind view (dlq_declared from name) _ (dead_letter_of from name) tt (view w) _ _
              (declare_dlq-Made ch from name w)
              λ w. queue-Made "declare queue" ch name (some (dead_letter_of from name)) w

    bind_all-Made :
        (ch : H) (from name : String) (keys : List String) (w : W)
        → Made view (bindings from name keys) tt (view w) (bind_all amqp ch from name keys w)
    bind_all-Made ch from name [] w = pure-Made tt w
    bind_all-Made ch from name (key ∷ keys) w =
        Made-bind view (binding name key from ∷ []) _ tt tt (view w) _ _
          (binding-Made _ ch name key from w) λ w. bind_all-Made ch from name keys w

    qos-Made : (ch : H) (w : W) → Made view [] tt (view w) (wrap_error "set qos" (amqp.qos ch 10) w)
    qos-Made ch w =
        Made-wrap view "set qos" [] tt (view w) (amqp.qos ch 10 w) (L.prefetches ch 10 w)

    -- NewSubscriber, over a broker that keeps the documented laws of the AMQP library, either
    -- fails and leaves as many connections and channels open as before, or opens one of each and
    -- declares the exchange, the dead letter exchange, queue and binding, the queue with the
    -- arguments that lead there, and a binding of it for each key, in this order.
    pub new_subscriber-Opens :
        (cfg : RabbitMqConfig) (name : String) (keys : List String) (w : W)
        → Opens view
            (session (queue_declared cfg.exchange name ++ bindings cfg.exchange name keys ++ []))
            (view w)
            (new_subscriber amqp cfg name keys w)
    unfolding new_subscriber
    new_subscriber-Opens cfg name keys w = with_session-Opens view amqp L cfg _ _ w λ ch w.
        Made-bind view (queue_declared cfg.exchange name) _ tt tt (view w) _ _
          (declare_queue-Made ch cfg.exchange name w)
          λ w.
            Made-bind view (bindings cfg.exchange name keys) [] tt tt (view w) _ _
              (bind_all-Made ch cfg.exchange name keys w) λ w. qos-Made ch w

    -- NewPaymentConsumer and NewPaymentPublisher, over a broker that keeps the documented laws of the
    -- AMQP library, either fail and leave as many connections and channels open as before, or give
    -- a session, and both declare exactly the same: in particular the queue with the same arguments.
    pub new_payment-Opens :
        (cfg : RabbitMqConfig) (w : W)
        → let ds =
            queue_declared cfg.exchange cfg.queue
            ++ (binding cfg.queue routing_key cfg.exchange ∷ []) in
          Opens view (session ds) (view w) (new_payment_consumer amqp cfg w)
          × Opens view (session ds) (view w) (new_payment_publisher amqp cfg w)
    unfolding new_payment_consumer new_payment_publisher
    new_payment-Opens cfg w = (
      with_session-Opens view amqp L cfg _ _ w λ ch w.
          Made-bind view (queue_declared cfg.exchange cfg.queue) _ tt tt (view w) _ _
            (declare_queue-Made ch cfg.exchange cfg.queue w)
            λ w.
              Made-bind view (binding cfg.queue routing_key cfg.exchange ∷ []) [] tt tt (view w) _ _
                (binding-Made "bind queue" ch cfg.queue routing_key cfg.exchange w)
                λ w. qos-Made ch w,
      with_session-Opens view amqp L cfg _ _ w λ ch w.
          Made-bind view (queue_declared cfg.exchange cfg.queue) _ tt tt (view w) _ _
            (declare_queue-Made ch cfg.exchange cfg.queue w)
            λ w. binding-Made "bind queue" ch cfg.queue routing_key cfg.exchange w,
    )
