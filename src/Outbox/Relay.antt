-- ===== src/Outbox/Relay.antt =====
-- internal/application/outbox/relay.go. The ticker of Run calls `dispatch` again and again, and a
-- failed call only logs.
pub mod Delivery
use payment_service.Base.{
  ℕ, zero, suc, String, ◌<>◌, List, [], ◌∷◌, M, pure, wrap_error, ◌>>=◌, ◌>>◌, Result,
}
use payment_service.Outbox.{Event, Repository, Publisher}

module _ {W : Type 0} (repo : Repository W) (publish : Publisher W) where
  -- The loop of dispatch over the fetched events.
  unfoldable pub send_all : List Event → M W (Unit {0})
  send_all [] = pure tt
  send_all (event ∷ events) = do
    wrap_error ("publish event " <> event.id) (publish event.type event.id event.payload)
    wrap_error ("mark published " <> event.id) (repo.mark_published event.id)
    send_all events

  -- dispatch
  unfoldable pub dispatch : ℕ → M W (Unit {0})
  dispatch batch_size = do
    events ← wrap_error "fetch unpublished" (repo.fetch_unpublished batch_size)
    send_all events

  -- Run, for so many ticks.
  unfoldable pub ticks : ℕ → ℕ → W → W
  ticks batch_size zero w = w
  ticks batch_size (suc n) w = ticks batch_size n (dispatch batch_size w).1
