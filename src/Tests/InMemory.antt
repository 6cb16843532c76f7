-- ===== src/Tests/InMemory.antt =====
-- The use cases over the repositories in memory, at concrete tables.
use payment_service.Messaging.{ack, handle_payment}
use payment_service.Messaging.EndToEnd.{handle_payment_created}
use payment_service.Tests.Fixtures.{parse, format-ReadsBack}
use payment_service.Usecase.Events.{payment_payload}
use payment_service.Base.{Bool, ◌≡◌, refl, ok, string_discrete}
use payment_service.Base.Int.{pos}
use payment_service.Base.Dict.{lookup}
use payment_service.Payment.{pending, authorized, completed, partially_refunded, mark_authorized}
use payment_service.Usecase.Events.{
  to_payment_response, event_payment_created, event_payment_authorized, event_payment_refunded,
}
use payment_service.Usecase.Laws.{store_event, store_payment}
use payment_service.Usecase.InMemory.{refund_stored}
use payment_service.Usecase.Process.{ProcessPaymentInput, apply_outcome}
use payment_service.Usecase.Process
use payment_service.Usecase.Refund.{asked_amount}
use payment_service.Usecase.Refund
use payment_service.Tests.Fixtures.{payment, format, refund_part}
use payment_service.Tests.Tables.{holding, event_for, built, processor, refunder}

refund_stored_example :
    Refund.execute format refunder "pay-1" (pos 3000) "e" (pos 5) (holding (payment completed 0))
    ≡ (
      ok (to_payment_response (payment partially_refunded 3000)),
      store_event
          (event_for (payment partially_refunded 3000) event_payment_refunded)
          (store_payment (payment partially_refunded 3000) (holding (payment completed 0))),
    )
unfolding asked_amount lookup string_discrete
refund_stored_example =
    refund_stored format (pos 9) "u" (pos 3000) "e" (pos 5) (holding (payment completed 0))
      (payment completed 0) (payment partially_refunded 3000)
      (event_for (payment partially_refunded 3000) event_payment_refunded) refl refund_part
      (built (payment partially_refunded 3000) event_payment_refunded refl)

handle_payment_created_example :
    handle_payment
      (λ k. Bool.false)
      (pos 3)
      parse
      (λ input. Process.execute format processor input "e" (pos 5))
      (payment_payload (payment pending 0) "0001-01-01T00:00:00Z")
      (holding (payment pending 0))
    ≡ (
      ack,
      store_event
          (event_for (payment authorized 0) event_payment_authorized)
          (store_payment (payment authorized 0) (holding (payment pending 0))),
    )
unfolding apply_outcome mark_authorized lookup string_discrete
handle_payment_created_example =
    handle_payment_created (λ k. Bool.false) 3 format parse (pos 9) "u" "e" "e"
      event_payment_authorized (pos 5) (pos 5) (holding (payment pending 0)) (payment pending 0)
      (payment authorized 0) (event_for (payment pending 0) event_payment_created)
      (event_for (payment authorized 0) event_payment_authorized) format-ReadsBack
      (built (payment pending 0) event_payment_created refl) refl refl
      (built (payment authorized 0) event_payment_authorized refl)
