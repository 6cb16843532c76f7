-- ===== src/Http.antt =====
-- The HTTP side of the service: internal/infrastructure/http/handler (payment_handler.go,
-- webhook_handler.go), internal/infrastructure/http/middleware/idempotency.go and GetPayment of
-- internal/application/usecase/get_payment.go. What gin binds from a request is an argument, and so
-- are json.Marshal and the hash of a request.
pub mod Errors
pub mod Routes
use payment_service.Base.{
  List, String, Bool, true, false, Option, none, some, M, Result, ok, err, Error, message, cause,
  pure, lift, ◌>>=◌, ◌>>◌, not_found, invalid_amount, invalid_installments, invalid_capture_method,
  invalid_refund_amount, refund_exceeds_amount, invalid_transition, invalid_key, already_processing,
  key_already_exists, invalid_url, invalid_event_type, ℕ, str_eq, if◌then◌else◌,
}
use payment_service.Base.Int.{ℤ, pos}
use payment_service.Payment.{Time, Payment}
use payment_service.Json.{Body}
use payment_service.Idempotency.{CachedResponse}
use payment_service.Idempotency
use payment_service.Usecase.Ports.{PaymentRepository}
use payment_service.Usecase.Events.{TimeFormat, PaymentResponse, to_payment_response}
use payment_service.Usecase.Create.{CreatePayment, CreatePaymentRequest, Fresh}
use payment_service.Usecase.Create
use payment_service.Usecase.Capture.{CapturePayment}
use payment_service.Usecase.Capture
use payment_service.Usecase.Refund.{RefundPayment}
use payment_service.Usecase.Refund
use payment_service.Usecase.List.{PaginatedResponse}
use payment_service.Usecase.List as Listing
use payment_service.Webhook.{Subscription, UrlParser}
use payment_service.Webhook.Subscriptions.{WebhookResponse, create_subscription, list_subscriptions}

-- c.JSON and c.Data: the status and what is written.
pub data ReplyBody : Type 0 where
  error_body : String → ReplyBody
  payment_body : PaymentResponse → ReplyBody
  raw_body : Body → ReplyBody
  subscription_body : WebhookResponse → ReplyBody
  subscriptions_body : List WebhookResponse → ReplyBody
  page_body : PaginatedResponse → ReplyBody

pub record Reply : Type 0 where
  pub status : ℤ
  pub body : ReplyBody

abbrev pub internal_error : Reply
internal_error = record { status = pos 500; body = error_body "internal server error" }

-- The switch of handleError on the sentinel that an error wraps: `none` is its default.
abbrev pub client_status : Error → Option ℤ
client_status not_found = some (pos 404)
client_status invalid_amount = some (pos 400)
client_status invalid_installments = some (pos 400)
client_status invalid_capture_method = some (pos 400)
client_status invalid_refund_amount = some (pos 400)
client_status refund_exceeds_amount = some (pos 400)
client_status invalid_transition = some (pos 409)
client_status invalid_key = some (pos 400)
client_status already_processing = some (pos 409)
client_status key_already_exists = some (pos 409)
client_status _ = none

abbrev reply_with : Error → Option ℤ → Reply
reply_with e none = internal_error
reply_with e (some status) = record { status = status; body = error_body (message e) }

-- PaymentHandler.handleError
unfoldable pub handle_error : Error → Reply
unfolding cause message
handle_error e = reply_with e (client_status (cause e))

-- A use case's result as a reply.
abbrev pub replied : {W A : Type 0} → (A → Reply) → Result A × W → Reply × W
replied success (ok a, w) = (success a, w)
replied success (err e, w) = (handle_error e, w)

abbrev pub shown : PaymentResponse → Reply
shown r = record { status = pos 200; body = payment_body r }

abbrev pub bad_request : String → Reply
bad_request text = record { status = pos 400; body = error_body text }

abbrev pub cached : CachedResponse → Reply
cached r = record { status = r.status_code; body = raw_body r.body }

abbrev webhook_error : Error → Error → Reply
webhook_error invalid_url e = bad_request (message e)
webhook_error invalid_event_type e = bad_request (message e)
webhook_error _ e = internal_error

abbrev found_payment : {W : Type 0} → Error → Error → M W PaymentResponse
found_payment not_found e w = (err not_found, w)
found_payment _ e w = (err e, w)

module _ {W : Type 0} where
  abbrev read_payment : Result Payment × W → Result PaymentResponse × W
  read_payment (ok p, w) = (ok (to_payment_response p), w)
  read_payment (err e, w) = found_payment (cause e) e w

  -- GetPayment.Execute
  unfoldable pub get_payment : PaymentRepository W → String → M W PaymentResponse
  unfolding to_payment_response cause
  get_payment repo id w = read_payment (repo.find_by_id id w)

  -- PaymentHandler.GetByID
  unfoldable pub get_by_id : PaymentRepository W → String → W → Reply × W
  unfolding get_payment handle_error
  get_by_id repo id w = replied shown (get_payment repo id w)

  -- PaymentHandler.Capture
  unfoldable pub capture : TimeFormat → CapturePayment W → String → String → Time → W → Reply × W
  unfolding Capture.execute handle_error
  capture format uc id event_id event_at w =
      replied shown (Capture.execute format uc id event_id event_at w)

  -- PaymentHandler.Refund: `bound` is the amount of the body, or gin's error. A request without a body
  -- binds the amount 0.
  unfoldable pub refund :
      TimeFormat → RefundPayment W → String → Option (Result ℤ) → String → Time → W → Reply × W
  unfolding Refund.execute handle_error message
  refund format uc id (some (err e)) event_id event_at w = (bad_request (message e), w)
  refund format uc id (some (ok amount)) event_id event_at w =
      replied shown (Refund.execute format uc id amount event_id event_at w)
  refund format uc id none event_id event_at w =
      replied shown (Refund.execute format uc id (pos 0) event_id event_at w)

  module _ (format : TimeFormat) (uc : CreatePayment W) (idempotency : Idempotency.Repository W)
      (marshal : PaymentResponse → Result Body)
      (hash_request : CreatePaymentRequest → Result String) where
    -- The function that Create hands to the idempotency service.
    unfoldable pub create_response : CreatePaymentRequest → Fresh → M W CachedResponse
    unfolding Create.execute
    create_response req new = do
      result ← Create.execute format uc req new
      body ← lift (marshal result)
      pure (record { status_code = pos 201; body = body; request_hash = "" })

    abbrev with_hash : Result String → String → CreatePaymentRequest → Fresh → W → Reply × W
    with_hash (err e) key req new w = (internal_error, w)
    with_hash (ok hash) key req new w =
        replied cached (Idempotency.execute idempotency key hash (create_response req new) w)

    -- PaymentHandler.Create, of a bound request.
    unfoldable pub create : Result CreatePaymentRequest → String → Fresh → W → Reply × W
    unfolding Idempotency.execute create_response handle_error message
    create (err e) key new w = (bad_request (message e), w)
    create (ok req) key new w = with_hash (hash_request req) key req new w

    -- middleware.Idempotency in front of Create.
    unfoldable pub post_payments : Result CreatePaymentRequest → String → Fresh → W → Reply × W
    unfolding create
    post_payments bound header new w =
        if str_eq header ""
        then (record { status = pos 400; body = error_body "Idempotency-Key is required" }, w)
        else create bound header new w

  abbrev webhook_replied : Result WebhookResponse × W → Reply × W
  webhook_replied (ok sub, w) = (record { status = pos 201; body = subscription_body sub }, w)
  webhook_replied (err e, w) = (webhook_error (cause e) e, w)

  -- WebhookHandler.Create: what gin binds is the url, the secret and the event type.
  unfoldable pub create_webhook :
      UrlParser
      → (Subscription → M W (Unit {0}))
      → Result (String × String × String)
      → String
      → String
      → Time
      → W
      → Reply × W
  unfolding create_subscription message
  create_webhook parse save (err e) new_secret id now w = (bad_request (message e), w)
  create_webhook parse save (ok (url, secret, event_type)) new_secret id now w =
      webhook_replied (create_subscription parse save url secret event_type new_secret id now w)

  abbrev subscriptions_replied : Result (List WebhookResponse) × W → Reply × W
  subscriptions_replied (ok subs, w) =
      (record { status = pos 200; body = subscriptions_body subs }, w)
  subscriptions_replied (err e, w) = (internal_error, w)

  -- PaymentHandler.List, with the parameters of the query.
  unfoldable pub list_payments :
      Listing.Atoi → Listing.FindAll W → String → String → String → String → String → W → Reply × W
  unfolding Listing.execute handle_error
  list_payments atoi find_all page limit sort order status w =
      replied (λ r. record { status = pos 200; body = page_body r })
        (Listing.execute atoi find_all page limit sort order status w)

  -- WebhookHandler.List
  unfoldable pub list_webhooks : M W (List Subscription) → W → Reply × W
  unfolding list_subscriptions
  list_webhooks find_all w = subscriptions_replied (list_subscriptions find_all w)
