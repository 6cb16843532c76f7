-- ===== src/Messaging/EndToEnd.antt =====
-- A payment.created message in the consumer (internal/infrastructure/messaging/rabbitmq/consumer.go),
-- which runs ProcessPayment over the repositories in memory and the simulated provider.
use payment_service.Base.{M, ◌>>=◌, pure, after_call, ℕ, Bool, ◌≡◌, refl, ap, String, some, ok}
use payment_service.Base.Int.{pos}
use payment_service.Base.Dict.{lookup}
use payment_service.Json.{TimeParser}
use payment_service.Outbox.{Event}
use payment_service.Payment.{Payment, Time}
use payment_service.Usecase.Events.{TimeFormat, event_payment_created, build_payment_event}
use payment_service.Usecase.Laws.{Tables, store_payment, store_event}
use payment_service.Usecase.Memory.{repository, outbox}
use payment_service.Usecase.InMemory.{transaction, provider, answer, process_stored}
use payment_service.Usecase.Process.{ProcessPayment, ProcessPaymentInput, apply_outcome}
use payment_service.Usecase.Process
use payment_service.Messaging.{
  ack, handle_payment, handle_message, process_with_retry, retry_from, input_of,
}
use payment_service.Messaging.Handle.{ReadsBack, carried, unmarshal_created-build_payment_event}

abbrev pub processor : Time → String → ProcessPayment Tables
processor now provider_id = record {
  repo = repository;
  gateway = some (provider provider_id);
  outbox = some (outbox now);
  tx = some transaction;
}

-- A handler that succeeds at once.
handle_message_first :
    {W : Type 0} (cancelled : ℕ → Bool) (n : ℕ) (handler : M W (Unit {0})) (w w' : W)
    → handler w ≡ (ok tt, w')
    → handle_message cancelled (pos n) handler w ≡ (ack, w')
unfolding handle_message process_with_retry retry_from
handle_message_first cancelled n handler w w' h =
    rw (handle_message, process_with_retry, retry_from, h) (λ i. (ack, (h i).1))

-- The consumer, with n retries, over the repositories in memory and the simulated provider: a
-- message with the payload of the payment.created event that was built for a payment, whose times
-- can be read back, is acknowledged after one run, if the stored payment admits the provider's
-- answer and the event of that transition can be built; the tables hold the payment after the
-- transition and that event, and nothing else has changed.
pub handle_payment_created :
    (cancelled : ℕ → Bool) (n : ℕ) (format : TimeFormat) (parse : TimeParser) (now : Time)
    (provider_id id event_id type : String) (at event_at : Time) (t : Tables) (p q : Payment)
    (created event : Event)
    → ReadsBack format parse
    → build_payment_event format p event_payment_created id at ≡ ok created
    → lookup p.id t.payments ≡ some p
    → apply_outcome p (answer format now provider_id p) ≡ ok (q, type)
    → build_payment_event format q type event_id event_at ≡ ok event
    → handle_payment cancelled
        (pos n)
        parse
        (λ input. Process.execute format (processor now provider_id) input event_id event_at)
        created.payload
        t
      ≡ (ack, store_event event (store_payment q t))
unfolding handle_payment
handle_payment_created cancelled n format parse now provider_id id event_id type at event_at t p q
      created event reads told stored moved built =
    let process = λ (input : ProcessPaymentInput).
      Process.execute format (processor now provider_id) input event_id event_at in
    let done =
      process_stored format now provider_id (input_of (carried p)) event_id event_at t p q type
        event refl stored moved built in
    rw
      (
        handle_payment,
        unmarshal_created-build_payment_event format parse p event_payment_created id at reads told,
      )
      (handle_message_first cancelled n (process (input_of (carried p)) >>= λ _. pure tt) t
        (store_event event (store_payment q t)) (ap (λ x. after_call x (λ _. pure tt)) done))
