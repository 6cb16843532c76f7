-- ===== src/Tests/Broker.antt =====
-- The sessions at the broker and the processes, over a broker that answers.
use payment_service.Base.{err, other, ◌-◌, List, [], ◌∷◌, ◌++◌, ok}
use payment_service.Base.Int.{pos}
use payment_service.Config.{PostgresConfig, RabbitMqConfig}
use payment_service.Json.{object}
use payment_service.Messaging.{ack, Verdict}
use payment_service.Messaging.Amqp.{Amqp, Delivery, new_subscriber}
use payment_service.Messaging.Consume.{Signal, done, closed, delivery}
use payment_service.Messaging.Topology.{
  Wire, Opens, one_connection, one_channel, declare, exchange, queue, binding,
}
use payment_service.Messaging.Topology.Opening.{session}
use payment_service.Messaging.Topology.Sessions.{queue_declared, bindings}
use payment_service.Messaging.Topology.Traced.{traced, new_subscriber-traced-Opens}
use payment_service.Services.{Runtime, run_service, final_events}
use payment_service.Services.Runs.{Ended}
use payment_service.Services.Traced.{traced_runtime, handling, run_service-traced-Ended}

abbrev broker : Amqp Wire (Unit {0}) (Unit {0})
broker = record {
  dial = λ url w. (ok tt, one_connection w);
  channel = λ c w. (ok tt, one_channel w);
  exchange_declare = λ ch name kind w. (ok tt, declare (exchange name kind ∷ []) w);
  queue_declare = λ ch name args w. (ok tt, declare (queue name args ∷ []) w);
  queue_bind = λ ch name key from w. (ok tt, declare (binding name key from ∷ []) w);
  qos = λ ch n w. (ok tt, declare [] w);
  publish = λ ch from key id body w. (ok tt, w);
  close_channel = λ ch w. record w { channels = w.channels - 1 };
  close_connection = λ c w. (ok tt, record w { connections = w.connections - 1 });
}

abbrev quiet : Wire
quiet = record { connections = 0; channels = 0; declared = []; settled = [] }

abbrev rabbit : RabbitMqConfig
rabbit = record {
  host = "localhost";
  port = "5672";
  user = "payment";
  password = "payment";
  vhost = "/";
  exchange = "payment.events";
  queue = "payment.created";
  max_retries = pos 3;
  retry_delay = pos 2;
}

-- A broker that refuses every channel.
abbrev refusing : Amqp Wire (Unit {0}) (Unit {0})
refusing = record broker { channel = λ c w. (err (other "channel limit"), w) }

new_subscriber-traced-Opens_example :
    Opens
      (λ (u : Wire × Wire). u.1)
      (session (
        queue_declared "payment.events" "webhook.payment"
        ++ bindings "payment.events" "webhook.payment" final_events
        ++ []))
      quiet
      (new_subscriber (traced refusing) rabbit "webhook.payment" final_events (quiet, quiet))
new_subscriber-traced-Opens_example =
    new_subscriber-traced-Opens refusing rabbit "webhook.payment" final_events (quiet, quiet)

abbrev runtime : Runtime Wire (Unit {0}) (Unit {0}) (Unit {0})
runtime = record {
  pools = record { new = λ url w. (ok tt, w); ping = λ pool w. (ok tt, w); close = λ pool w. w };
  amqp = broker;
  consume = λ ch name w. (ok tt, w);
  settle = λ d v w. (ok tt, record w { settled = w.settled ++ (d ∷ []) });
}

abbrev postgres : PostgresConfig
postgres = record {
  host = "localhost";
  port = "5432";
  user = "payment";
  password = "payment";
  db_name = "payment_db";
}

abbrev signals : List Signal
signals =
    delivery (record { message_id = "m"; routing_key = "payment.failed"; body = object [] })
    ∷ done
    ∷ closed
    ∷ []

abbrev accepting : Delivery → Wire → Verdict × Wire
accepting d w = (ack, w)

run_service-traced-Ended_example :
    Ended
      (λ (u : Wire × Wire). u.1)
      quiet
      signals
      (run_service
        (traced_runtime runtime)
        postgres
        (new_subscriber (traced broker) rabbit "webhook.payment" final_events)
        "webhook.payment"
        (handling accepting)
        signals
        (quiet, quiet))
run_service-traced-Ended_example =
    run_service-traced-Ended runtime postgres rabbit "webhook.payment" final_events accepting
      signals (quiet, quiet)
