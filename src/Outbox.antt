-- ===== src/Outbox.antt =====
-- The outbox event: internal/domain/outbox/event.go, and the ports that its repository and the
-- broker are: internal/domain/outbox/repository.go and the Publisher of
-- internal/application/outbox/relay.go.
pub mod Memory
pub mod Relay
use payment_service.Base.{String, List, Option, none, M, ℕ}
use payment_service.Payment.{Time}
use payment_service.Json.{Body}

pub record Event : Type 0 where
  pub id : String
  pub aggregate_id : String
  pub type : String
  pub payload : Body
  pub created_at : Time
  pub published_at : Option Time

-- NewEvent, with the new uuid and the time.
unfoldable pub new_event : String → String → Body → String → Time → Event
new_event aggregate_id type payload id now = record {
  id = id;
  aggregate_id = aggregate_id;
  type = type;
  payload = payload;
  created_at = now;
  published_at = none;
}

-- outbox.Repository
pub record Repository (W : Type 0) : Type 0 where
  pub add : Event → M W (Unit {0})
  pub fetch_unpublished : ℕ → M W (List Event)
  pub mark_published : String → M W (Unit {0})

-- Publisher.Publish, with the routing key, the message's id and its body.
abbrev pub Publisher : Type 0 → Type 0
Publisher W = String → String → Body → M W (Unit {0})
