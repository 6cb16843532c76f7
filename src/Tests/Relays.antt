-- ===== src/Tests/Relays.antt =====
-- The relay over PostgreSQL at a concrete table.
use payment_service.Base.{
  ◌≡◌, refl, none, [], ◌∷◌, ◌++◌, List, map, take, drop, ok, arith, string_discrete,
}
use payment_service.Base.Int.{pos}
use payment_service.Base.Dict.{lookup, insert}
use payment_service.Json.{null_body}
use payment_service.Outbox.{Publisher}
use payment_service.Outbox.Memory.{pending}
use payment_service.Outbox.Relay.{dispatch, send_all}
use payment_service.Outbox.Relay.Delivery.{Message, message_of}
use payment_service.Postgres.{Database, Executor, ExecutorLaws, read_rows}
use payment_service.Postgres.Direct.{direct, direct-ExecutorLaws}
use payment_service.Postgres.Events
use payment_service.Postgres.Tables.{events_of}
use payment_service.Postgres.Relayed.{RelayLaws, dispatch_in_postgres}
use payment_service.Tests.Database.{plain, blank}

-- The tables, and what the broker has.
abbrev Wired : Type 0
Wired = Database × List Message

abbrev tables : Wired → Database
tables w = w.0

abbrev messages : Wired → List Message
messages w = w.1

abbrev server : Executor Wired
server = record {
  exec = λ c w. let out = direct.exec c w.0 in (out.0, (out.1, w.1));
  query = λ q w. let out = direct.query q w.0 in (out.0, (out.1, w.1));
  query_row = λ q w. let out = direct.query_row q w.0 in (out.0, (out.1, w.1));
  timestamptz = λ t. t;
}

server-ExecutorLaws : ExecutorLaws tables server
server-ExecutorLaws = record {
  exec-runs = λ c w n ran. direct-ExecutorLaws.exec-runs c w.0 n ran;
  query-keeps = λ q w. refl;
  query-reads =
      λ q w rows xs ran fine read. direct-ExecutorLaws.query-reads q w.0 rows xs ran fine read;
  query_row-keeps = λ q w. refl;
  query_row-reads = λ q w r ran. direct-ExecutorLaws.query_row-reads q w.0 r ran;
  query_row-empty = λ q w e ran empty. direct-ExecutorLaws.query_row-empty q w.0 e ran empty;
}

abbrev broker : Publisher Wired
broker key id body w =
    (ok tt, (w.0, w.1 ++ (record { routing_key = key; message_id = id; body = body } ∷ [])))

broker-RelayLaws : RelayLaws tables messages server broker
broker-RelayLaws = record {
  exec-quiet = λ c w. refl;
  query-quiet = λ q w. refl;
  publish-keeps = λ e w. refl;
  publish-sends = λ e w done. refl;
}

abbrev one_pending : Wired
one_pending = (
  record blank {
    outbox_events =
        (
          "e",
          record {
            aggregate_id = "pay-1";
            event_type = "payment.failed";
            payload = null_body;
            created_at = pos 1;
            published_at = none;
          },
        )
        ∷ [];
  },
  [],
)

dispatch_in_postgres_example :
    let w' =
      (dispatch
        (Events.repository plain (pos 9) (λ (h : Unit {0}). server) server none)
        broker
        10
        one_pending).1 in
    (pending (events_of w'.0.outbox_events)
      ≡ drop 10 (pending (events_of one_pending.0.outbox_events)))
    × (w'.1 ≡ map message_of (take 10 (pending (events_of one_pending.0.outbox_events))))
unfolding dispatch send_all Events.repository Events.fetch_unpublished Events.mark_published
    Events.select_unpublished Events.update_published Events.scan_event read_rows lookup insert
    string_discrete events_of
dispatch_in_postgres_example =
    dispatch_in_postgres tables messages server broker server-ExecutorLaws broker-RelayLaws plain
      (pos 9) (λ (h : Unit {0}). server) none 10 one_pending (ground arith) (tt, tt) refl refl
