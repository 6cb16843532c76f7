-- ===== src/Messaging/Handle.antt =====
-- What becomes of a message, and what the consumer reads of an event
-- (internal/infrastructure/messaging/rabbitmq: consumer.go, subscriber.go).
use payment_service.Base.{
  ◌≡◌, refl, ℕ, suc, ◌≤◌, Bool, ◌⊎◌, inl, inr, String, some, M, Result, ok, err, Error, arith,
  Result-cases, string_discrete,
}
use payment_service.Base.Int.{pos}
use payment_service.Payment.{Payment, Time, status_text}
use payment_service.Json.{Body, TimeParser}
use payment_service.Outbox.{Event}
use payment_service.Usecase.Events.{TimeFormat, build_payment_event, payment_payload}
use payment_service.Usecase.Process.{ProcessPaymentInput, ProcessPaymentOutput}
use payment_service.Messaging.{
  ack, dead_letter, verdict_of, PaymentCreatedEvent, unmarshal_created, handle_message,
  handle_payment, process_with_retry,
}
use payment_service.Messaging.Retry.{Calls, last, again, process_with_retry-Tried}

-- The stamps that the service writes can be read.
abbrev pub ReadsBack : TimeFormat → TimeParser → Type 0
ReadsBack format parse = (t : Time) (s : String) → format t ≡ ok s → parse s ≡ some t

abbrev pub carried : Payment → PaymentCreatedEvent
carried p = record {
  id = p.id;
  amount = p.money.amount;
  currency = p.money.currency;
  status = status_text p.status;
  created_at = p.created_at;
}

unmarshal_created-payment_payload :
    (parse : TimeParser) (p : Payment) (s : String)
    → parse s ≡ some p.created_at
    → unmarshal_created parse (payment_payload p s) ≡ ok (carried p)
unfolding unmarshal_created payment_payload string_discrete
unmarshal_created-payment_payload parse p s e = ground arith

payload_cases :
    (format : TimeFormat) (p : Payment) (type event_id : String) (event_at : Time) (event : Event)
    → build_payment_event format p type event_id event_at ≡ ok event
    → (s : String) × (format p.created_at ≡ ok s) × (event.payload ≡ payment_payload p s)
unfolding build_payment_event
payload_cases format p type event_id event_at event built =
    elim (Result-cases (format p.created_at)) [
      | inl (e, bad) ↦ cc (rw bad at built)
      | inr (s, good) ↦ (s, good, ground (arith, good))
    ]

-- The consumer reads from the payload of an event that was built for a payment the id, amount,
-- currency, status and creation time of that payment, if the times that are written can be read
-- back.
pub unmarshal_created-build_payment_event :
    (format : TimeFormat) (parse : TimeParser) (p : Payment) (type event_id : String)
    (event_at : Time) {event : Event}
    → ReadsBack format parse
    → build_payment_event format p type event_id event_at ≡ ok event
    → unmarshal_created parse event.payload ≡ ok (carried p)
unmarshal_created-build_payment_event format parse p type event_id event_at {event} reads built =
    let (s, stamped, same) = payload_cases format p type event_id event_at event built in
    rw same (unmarshal_created-payment_payload parse p s (reads p.created_at s stamped))

verdict_cases :
    (r : Result (Unit {0}))
    → ((r ≡ ok tt) × (verdict_of r ≡ ack))
      ⊎ ((e : Error) × (r ≡ err e) × (verdict_of r ≡ dead_letter))
verdict_cases (ok _) = inl (refl, refl)
verdict_cases (err e) = inr (e, refl, refl)

Calls-pos :
    {W : Type 0} {fn : M W (Unit {0})} {n : ℕ} {w w' : W} {r : Result (Unit {0})}
    → Calls fn n w r w'
    → 1 ≤ n
Calls-pos (last e) = omega arith
Calls-pos (again e bad calls) = omega arith

module _ {W : Type 0} (cancelled : ℕ → Bool) (n : ℕ) where
  -- With n retries, a message is handled by from 1 to n + 1 calls one after another, all failing
  -- but perhaps the last; it is acknowledged exactly if the last call succeeded, and otherwise it
  -- is sent to the dead letter queue.
  pub handle_message_lem :
      (handler : M W (Unit {0})) (w : W)
      → let out = handle_message cancelled (pos n) handler w in
        (calls : ℕ) × (r : Result (Unit {0})) × Calls handler calls w r out.1
        × (1 ≤ calls)
        × (calls ≤ suc n)
        × (((r ≡ ok tt) × (out.0 ≡ ack)) ⊎ ((e : Error) × (r ≡ err e) × (out.0 ≡ dead_letter)))
  unfolding handle_message
  handle_message_lem handler w =
      let out = process_with_retry cancelled handler (pos n) w in
      let (calls, made, few, _) = process_with_retry-Tried handler cancelled n w in
      (calls, out.0, made, Calls-pos made, few, verdict_cases out.0)

  -- A malformed message goes to the dead letter queue at once, and nothing is called.
  pub handle_payment_malformed :
      (parse : TimeParser) (process : ProcessPaymentInput → M W ProcessPaymentOutput) (body : Body)
      (w : W) (e : Error)
      → unmarshal_created parse body ≡ err e
      → handle_payment cancelled (pos n) parse process body w ≡ (dead_letter, w)
  unfolding handle_payment
  handle_payment_malformed parse process body w e bad = rw (bad, handle_payment) refl
