-- ===== src/Tests/Outboxes.antt =====
-- The outbox and its relay at concrete events.
use payment_service.Base.{
  ◌≡◌, refl, inl, List, [], ◌∷◌, ◌++◌, none, some, ok, String, arith, Option,
}
use payment_service.Base.Int.{pos}
use payment_service.Payment.{Time}
use payment_service.Json.{null_body}
use payment_service.Outbox.{Event, Publisher}
use payment_service.Outbox.Memory.{pending, DistinctIds}
use payment_service.Outbox.Relay.{dispatch, ticks}
use payment_service.Outbox.Relay.Delivery.{
  Station, outbox_at, message_of, PublisherLaws, Sent, dispatch-Sent, ticks_drain,
}
use text.Mathlib.TextEquality.{eq_iff}

abbrev event : String → Option Time → Event
event id published_at = record {
  id = id;
  aggregate_id = "pay-1";
  type = "payment.completed";
  payload = null_body;
  created_at = pos 1;
  published_at = published_at;
}

abbrev first : Event
first = event "a" none

abbrev second : Event
second = event "c" none

abbrev three_events : List Event
three_events = first ∷ event "b" (some (pos 2)) ∷ second ∷ []

three_events-DistinctIds : DistinctIds three_events
three_events-DistinctIds = (
  (ground (arith, eq_iff "b" "a"), (ground (arith, eq_iff "c" "a"), tt)),
  ((ground (arith, eq_iff "c" "b"), tt), (tt, tt)),
)

abbrev accepting : Publisher Station
accepting routing_key id body s = (
  ok tt,
  record s {
    sent = s.sent ++ (record { routing_key = routing_key; message_id = id; body = body } ∷ []);
  },
)

accepting-PublisherLaws : PublisherLaws accepting
accepting-PublisherLaws e s = inl (refl, refl)

abbrev station : Station
station = record { events = three_events; sent = [] }

dispatch-Sent_example :
    Sent (first ∷ []) (second ∷ []) station (dispatch (outbox_at (pos 3)) accepting 1 station)
dispatch-Sent_example =
    dispatch-Sent accepting accepting-PublisherLaws (pos 3) 1 station (omega arith)
      three_events-DistinctIds

ticks_drain_example :
    (pending (ticks (outbox_at (pos 3)) accepting 1 2 station).events ≡ [])
    × ((ticks (outbox_at (pos 3)) accepting 1 2 station).sent
        ≡ message_of first ∷ message_of second ∷ [])
ticks_drain_example =
    ticks_drain accepting accepting-PublisherLaws (pos 3) (λ e s. refl) 1 (omega arith) 2 station
      three_events-DistinctIds (omega arith)
