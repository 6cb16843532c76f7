-- ===== src/Usecase/Events.antt =====
-- The events that the use cases write (the payload and buildPaymentEvent of
-- internal/application/usecase), and the response that they return
-- (internal/application/dto/payment.go, internal/application/usecase/mapper.go).
use payment_service.Base.{String, [], ◌∷◌, Result, ok, err}
use payment_service.Base.Int.{ℤ}
use payment_service.Payment.{Payment, Time, status_text, capture_method_text}
use payment_service.Json.{text, number, Body, object}
use payment_service.Outbox.{Event, new_event}

abbrev pub event_payment_created : String
event_payment_created = "payment.created"

abbrev pub event_payment_authorized : String
event_payment_authorized = "payment.authorized"

abbrev pub event_payment_completed : String
event_payment_completed = "payment.completed"

abbrev pub event_payment_failed : String
event_payment_failed = "payment.failed"

abbrev pub event_payment_refunded : String
event_payment_refunded = "payment.refunded"

-- Time.MarshalJSON: the text of a time, or an error outside the years that RFC 3339 has.
abbrev pub TimeFormat : Type 0
TimeFormat = Time → Result String

-- The document that json.Marshal makes of a paymentCreatedPayload.
unfoldable pub payment_payload : Payment → String → Body
unfolding status_text
payment_payload p created_at = object (
    ("id", text p.id)
    ∷ ("amount", number p.money.amount)
    ∷ ("currency", text p.money.currency)
    ∷ ("status", text (status_text p.status))
    ∷ ("created_at", text created_at)
    ∷ [])

abbrev event_with : Result String → Payment → String → String → Time → Result Event
event_with (ok created_at) p type id now =
    ok (new_event p.id type (payment_payload p created_at) id now)
event_with (err e) p type id now = err e

-- buildPaymentEvent, and buildCreatedEvent at the type "payment.created".
unfoldable pub build_payment_event : TimeFormat → Payment → String → String → Time → Result Event
unfolding new_event
build_payment_event format p type id now = event_with (format p.created_at) p type id now

pub record PaymentResponse : Type 0 where
  pub id : String
  pub amount : ℤ
  pub currency : String
  pub status : String
  pub capture_method : String
  pub installments : ℤ
  pub refunded_amount : ℤ
  pub created_at : Time

-- toPaymentResponse
unfoldable pub to_payment_response : Payment → PaymentResponse
to_payment_response p = record {
  id = p.id;
  amount = p.money.amount;
  currency = p.money.currency;
  status = status_text p.status;
  capture_method = capture_method_text p.capture_method;
  installments = p.installments;
  refunded_amount = p.refunded_amount;
  created_at = p.created_at;
}
