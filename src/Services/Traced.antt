-- ===== src/Services/Traced.antt =====
-- A process of cmd/audit, cmd/notification or cmd/webhook with an account of its calls of the AMQP
-- library.
use payment_service.Base.{refl, String, List, [], ◌∷◌, ◌++◌, M}
use payment_service.Config.{PostgresConfig, RabbitMqConfig}
use payment_service.Messaging.{Verdict}
use payment_service.Messaging.Amqp.{Delivery, new_subscriber}
use payment_service.Messaging.Consume.{Signal}
use payment_service.Messaging.Topology.{Wire}
use payment_service.Messaging.Topology.Sessions.{queue_declared, bindings}
use payment_service.Messaging.Topology.Traced.{traced, traced-AmqpLaws, new_subscriber-traced-Opens}
use payment_service.Services.{Runtime, run_service}
use payment_service.Services.Runs.{RuntimeLaws, Ended, run_service-Ended}

-- A call that the account does not enter.
abbrev beside : {W A : Type 0} → M W A → M (W × Wire) A
beside call v = let out = call v.0 in (out.0, (out.1, v.1))

-- A call of Ack or Nack is entered, whatever it answers.
abbrev settling : {W : Type 0} → Delivery → M W (Unit {0}) → M (W × Wire) (Unit {0})
settling d call v =
    let out = call v.0 in (out.0, (out.1, record v.1 { settled = v.1.settled ++ (d ∷ []) }))

abbrev pub handling :
    {W : Type 0} → (Delivery → W → Verdict × W) → Delivery → W × Wire → Verdict × (W × Wire)
handling handle d v = let out = handle d v.0 in (out.0, (out.1, v.1))

module _ {W P C H : Type 0} (rt : Runtime W P C H) where
  abbrev pub traced_runtime : Runtime (W × Wire) P C H
  traced_runtime = record {
    pools = record {
      new = λ url. beside (rt.pools.new url);
      ping = λ pool. beside (rt.pools.ping pool);
      close = λ pool v. (rt.pools.close pool v.0, v.1);
    };
    amqp = traced rt.amqp;
    consume = λ ch name. beside (rt.consume ch name);
    settle = λ d verdict. settling d (rt.settle d verdict);
  }

  traced-RuntimeLaws : RuntimeLaws (λ (v : W × Wire). v.1) traced_runtime
  traced-RuntimeLaws = record {
    amqp = traced-AmqpLaws rt.amqp;
    new-keeps = λ url v. refl;
    ping-keeps = λ pool v. refl;
    pool-close-keeps = λ pool v. refl;
    consume-keeps = λ ch name v. refl;
    settle-adds = λ d verdict v. refl;
  }

  -- A process that reads events with a Subscriber, over any calls of pgx and of the AMQP library,
  -- with an account kept of the latter, and any handler. If it ends cleanly, it has called Close
  -- on every connection and channel that it was given, and it has called Ack or Nack on no
  -- message, or on each one that came before the end of its context, once and in order. If it
  -- waits, it has called it on each one that came. If it ends with an error, it has called it on
  -- none, or on each one that came before the end whose error it is.
  pub run_service-traced-Ended :
      (cfg : PostgresConfig) (rabbit : RabbitMqConfig) (name : String) (keys : List String)
      (handle : Delivery → W → Verdict × W) (signals : List Signal) (v : W × Wire)
      → Ended
          (λ (u : W × Wire). u.1)
          v.1
          signals
          (run_service traced_runtime cfg
            (new_subscriber (traced rt.amqp) rabbit name keys)
            name
            (handling handle)
            signals
            v)
  run_service-traced-Ended cfg rabbit name keys handle signals v =
      run_service-Ended (λ (u : W × Wire). u.1) traced_runtime traced-RuntimeLaws (handling handle)
        (λ d u. refl)
        (queue_declared rabbit.exchange name ++ bindings rabbit.exchange name keys ++ [])
        (new_subscriber (traced rt.amqp) rabbit name keys)
        (new_subscriber-traced-Opens rt.amqp rabbit name keys) name cfg signals v
