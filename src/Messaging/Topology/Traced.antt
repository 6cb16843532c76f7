-- ===== src/Messaging/Topology/Traced.antt =====
-- The calls of the AMQP library with an account kept of them: any library, its every answer included.
use payment_service.Base.{◌-◌, refl, String, List, [], ◌∷◌, ◌++◌, M, Result, ok, err}
use payment_service.Config.{RabbitMqConfig}
use payment_service.Messaging.Amqp.{Amqp, new_subscriber}
use payment_service.Messaging.Topology.{
  Declared, exchange, queue, binding, Wire, Made, Opens, AmqpLaws, one_connection, one_channel,
  declare,
}
use payment_service.Messaging.Topology.Opening.{session}
use payment_service.Messaging.Topology.Sessions.{queue_declared, bindings, new_subscriber-Opens}

-- The account is changed when the call answers without an error.
abbrev counted : {A : Type 0} → (Wire → Wire) → Result A → Wire → Wire
counted grow (ok a) t = grow t
counted grow (err e) t = t

-- A call whose success is entered in the account.
abbrev entered : {W A : Type 0} → (Wire → Wire) → M W A → M (W × Wire) A
entered grow call v = let out = call v.0 in (out.0, (out.1, counted grow out.0 v.1))

module _ {W C H : Type 0} (amqp : Amqp W C H) where
  -- The same calls, with an account: a Close is entered when it is called, whatever it answers.
  abbrev pub traced : Amqp (W × Wire) C H
  traced = record {
    dial = λ url. entered one_connection (amqp.dial url);
    channel = λ c. entered one_channel (amqp.channel c);
    exchange_declare = λ ch name kind.
        entered (declare (exchange name kind ∷ [])) (amqp.exchange_declare ch name kind);
    queue_declare =
        λ ch name args. entered (declare (queue name args ∷ [])) (amqp.queue_declare ch name args);
    queue_bind = λ ch name key from.
        entered (declare (binding name key from ∷ [])) (amqp.queue_bind ch name key from);
    qos = λ ch n. entered (declare []) (amqp.qos ch n);
    publish = λ ch from key id body. entered (λ t. t) (amqp.publish ch from key id body);
    close_channel = λ ch v. (amqp.close_channel ch v.0, record v.1 { channels = v.1.channels - 1 });
    close_connection = λ c v.
        let out = amqp.close_connection c v.0 in
        (out.0, (out.1, record v.1 { connections = v.1.connections - 1 }));
  }

abbrev account : {W : Type 0} → W × Wire → Wire
account v = v.1

counted-Opens :
    {W A : Type 0} (grow : Wire → Wire) (r : Result A) (w : W) (t : Wire)
    → Opens (account {W = W}) grow t (r, (w, counted grow r t))
counted-Opens grow (ok a) w t = refl
counted-Opens grow (err e) w t = (refl, refl, refl)

counted-Made :
    {W : Type 0} (ds : List Declared) (r : Result (Unit {0})) (w : W) (t : Wire)
    → Made (account {W = W}) ds tt t (r, (w, counted (declare ds) r t))
counted-Made ds (ok _) w t = (refl, refl)
counted-Made ds (err e) w t = (refl, refl, refl)

module _ {W C H : Type 0} (amqp : Amqp W C H) where
  pub traced-AmqpLaws : AmqpLaws (λ (v : W × Wire). v.1) (traced amqp)
  traced-AmqpLaws = record {
    dials = λ url v. let out = amqp.dial url v.0 in counted-Opens one_connection out.0 out.1 v.1;
    channels = λ c v. let out = amqp.channel c v.0 in counted-Opens one_channel out.0 out.1 v.1;
    exchanges = λ ch name kind v.
        let out = amqp.exchange_declare ch name kind v.0 in
        counted-Made (exchange name kind ∷ []) out.0 out.1 v.1;
    queues = λ ch name args v.
        let out = amqp.queue_declare ch name args v.0 in
        counted-Made (queue name args ∷ []) out.0 out.1 v.1;
    binds = λ ch name key from v.
        let out = amqp.queue_bind ch name key from v.0 in
        counted-Made (binding name key from ∷ []) out.0 out.1 v.1;
    prefetches = λ ch n v. let out = amqp.qos ch n v.0 in counted-Made [] out.0 out.1 v.1;
    channel-closes = λ ch v. refl;
    connection-closes = λ c v. refl;
  }

  -- NewSubscriber, over any calls of the AMQP library with an account kept of them: if it fails,
  -- it has called Close on every connection and channel that it was given; if it succeeds, it was
  -- given one of each, has closed neither, and the broker has accepted the exchange, the dead
  -- letter exchange, queue and binding, the queue with the arguments that lead there, and a
  -- binding of it for each key, in this order.
  pub new_subscriber-traced-Opens :
      (cfg : RabbitMqConfig) (name : String) (keys : List String) (v : W × Wire)
      → Opens
          (λ (u : W × Wire). u.1)
          (session (queue_declared cfg.exchange name ++ bindings cfg.exchange name keys ++ []))
          v.1
          (new_subscriber (traced amqp) cfg name keys v)
  new_subscriber-traced-Opens cfg name keys v =
      new_subscriber-Opens (λ (u : W × Wire). u.1) (traced amqp) traced-AmqpLaws cfg name keys v
