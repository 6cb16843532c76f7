-- ===== src/Messaging.antt =====
-- internal/infrastructure/messaging/rabbitmq: the retry loop of dlq.go and the message handlers of
-- consumer.go and subscriber.go..
pub mod Retry
pub mod Handle
pub mod EndToEnd
pub mod Atomic
pub mod Amqp
pub mod Topology
pub mod Consume
use payment_service.Base.{
  ℕ, zero, suc, ◌+◌, Bool, true, false, not, ◌&&◌, String, ◌<>◌, Option, none, some, List, ◌∷◌, [],
  M, Result, ok, err, Error, wrap_error, pure, ◌>>=◌, ◌>>◌, if◌then◌else◌,
}
use payment_service.Base.Int.{ℤ, pos, negsuc}
use payment_service.Payment.{Time}
use payment_service.Json.{
  Body, object, null_body, no_object, TimeParser, field, read_text, read_number, read_time,
  json_error,
}
use payment_service.Usecase.Process.{ProcessPaymentInput, ProcessPaymentOutput}

-- The rounds of `for attempt := 0; attempt <= maxRetries`.
abbrev pub rounds : ℤ → ℕ
rounds (pos n) = suc n
rounds (negsuc n) = 0

module _ {W : Type 0} (cancelled : ℕ → Bool) (fn : M W (Unit {0})) where
  -- What follows a failed call: the last round ends the loop, and so does a context that is done
  -- while the delay runs.
  abbrev after_failure : ℕ → ℕ → Error → W → Result (Unit {0}) × W → Result (Unit {0}) × W
  after_failure zero attempt e w rest = (err e, w)
  after_failure (suc left) attempt e w rest = if cancelled attempt then (err e, w) else rest

  unfoldable pub retry_from : ℕ → ℕ → W → Result (Unit {0}) × W
  retry_from zero attempt w = (ok tt, w)
  retry_from (suc left) attempt w =
      let rest = retry_from left (attempt + 1) (fn w).1 in
      elim (fn w).0 [
        | ok _ ↦ (ok tt, (fn w).1)
        | err e ↦ after_failure left attempt e (fn w).1 rest
      ]

  -- processWithRetry. `cancelled k` tells that the context is done in the delay after attempt k.
  unfoldable pub process_with_retry : ℤ → W → Result (Unit {0}) × W
  unfolding retry_from
  process_with_retry max_retries w = retry_from (rounds max_retries) 0 w

-- Ack, or Nack without requeue, which sends the message to the dead letter queue.
pub data Verdict : Type 0 where
  ack dead_letter : Verdict

abbrev pub verdict_of {ℓ} : {A : Type ℓ} → Result A → Verdict
verdict_of (ok _) = ack
verdict_of (err e) = dead_letter

pub record PaymentCreatedEvent : Type 0 where
  pub id : String
  pub amount : ℤ
  pub currency : String
  pub status : String
  pub created_at : Time

abbrev all_fit : List Bool → Bool
all_fit [] = true
all_fit (b ∷ bs) = b && all_fit bs

-- json.Unmarshal into a paymentCreatedEvent.
unfoldable pub unmarshal_created : TimeParser → Body → Result PaymentCreatedEvent
unfolding field
unmarshal_created parse (no_object s) = err json_error
unmarshal_created parse null_body =
    ok (record { id = ""; amount = pos 0; currency = ""; status = ""; created_at = pos 0 })
unmarshal_created parse (object fields) =
    let id = field read_text "id" fields ("", true) in
    let amount = field read_number "amount" fields (pos 0, true) in
    let currency = field read_text "currency" fields ("", true) in
    let status = field read_text "status" fields ("", true) in
    let created = field (read_time parse) "created_at" fields (pos 0, true) in
    if all_fit (id.1 ∷ amount.1 ∷ currency.1 ∷ status.1 ∷ created.1 ∷ [])
    then ok (record {
      id = id.0;
      amount = amount.0;
      currency = currency.0;
      status = status.0;
      created_at = created.0;
    })
    else err json_error

abbrev pub input_of : PaymentCreatedEvent → ProcessPaymentInput
input_of event = record { payment_id = event.id; amount = event.amount; currency = event.currency }

module _ {W : Type 0} (cancelled : ℕ → Bool) (max_retries : ℤ) where
  -- Subscriber.handle
  unfoldable pub handle_message : M W (Unit {0}) → W → Verdict × W
  unfolding process_with_retry
  handle_message handler w =
      let out = process_with_retry cancelled handler max_retries w in (verdict_of out.0, out.1)

  abbrev pub handle_decoded :
      (ProcessPaymentInput → M W ProcessPaymentOutput)
      → Result PaymentCreatedEvent
      → W
      → Verdict × W
  handle_decoded process (err e) w = (dead_letter, w)
  handle_decoded process (ok event) w = handle_message (process (input_of event) >>= λ _. pure tt) w

  -- PaymentConsumer.handle
  unfoldable pub handle_payment :
      TimeParser → (ProcessPaymentInput → M W ProcessPaymentOutput) → Body → W → Verdict × W
  unfolding unmarshal_created handle_message
  handle_payment parse process body w = handle_decoded process (unmarshal_created parse body) w
