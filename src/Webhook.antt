-- ===== src/Webhook.antt =====
-- The webhook domain: internal/domain/webhook (subscription.go, delivery.go, signature.go,
-- sender.go, repository.go). Uuids and times are arguments; url.Parse and the HMAC are parameters.
pub mod Client
pub mod Attempt
pub mod Service
pub mod Memory
pub mod Subscriptions
pub mod Backoff
pub mod Schedule
use payment_service.Base.{
  Bool, true, false, not, ◌&&◌, ◌||◌, String, ◌<>◌, Option, none, some, Result, ok, err,
  invalid_url, invalid_event_type, str_eq, if◌then◌else◌,
}
use payment_service.Base.Int.{ℤ, pos, add64}
use payment_service.Base.Text.{trim_space, is_empty}
use payment_service.Payment.{Time}
use payment_service.Json.{Body}

pub record Subscription : Type 0 where
  pub id : String
  pub url : String
  pub secret : String
  pub event_type : String
  pub active : Bool
  pub created_at : Time

-- url.Parse: the scheme and the host of a text that is a URL.
pub record Url : Type 0 where
  pub scheme : String
  pub host : String

abbrev pub UrlParser : Type 0
UrlParser = String → Option Url

-- isValidURL
unfoldable pub is_valid_url : UrlParser → String → Bool
is_valid_url parse raw = elim (parse raw) [
  | none ↦ false
  | some u ↦ (str_eq u.scheme "http" || str_eq u.scheme "https") && not (str_eq u.host "")
]

-- NewSubscription. The uuid for a missing secret is drawn before that of the id.
unfoldable pub new_subscription :
    UrlParser → String → String → String → String → String → Time → Result Subscription
unfolding is_valid_url
new_subscription parse raw_url secret event_type new_secret id now =
    if not (is_valid_url parse raw_url)
    then err invalid_url
    else if is_empty (trim_space event_type)
    then err invalid_event_type
    else ok (record {
      id = id;
      url = raw_url;
      secret = if is_empty (trim_space secret) then new_secret else secret;
      event_type = event_type;
      active = true;
      created_at = now;
    })

pub data DeliveryStatus : Type 0 where
  pending delivered failed exhausted : DeliveryStatus

pub record Delivery : Type 0 where
  pub id : String
  pub subscription_id : String
  pub event_id : String
  pub event_type : String
  pub payload : Body
  pub status : DeliveryStatus
  pub attempts : ℤ
  pub last_error : String
  pub next_attempt_at : Time
  pub created_at : Time
  pub updated_at : Time

-- time.Time{}
abbrev pub zero_time : Time
zero_time = pos 0

-- NewDelivery
unfoldable pub new_delivery : String → String → String → Body → String → Time → Delivery
new_delivery subscription_id event_id event_type payload id now = record {
  id = id;
  subscription_id = subscription_id;
  event_id = event_id;
  event_type = event_type;
  payload = payload;
  status = pending;
  attempts = pos 0;
  last_error = "";
  next_attempt_at = zero_time;
  created_at = now;
  updated_at = now;
}

-- MarkDelivered
unfoldable pub mark_delivered : Time → Delivery → Delivery
mark_delivered now d = record d {
  status = delivered;
  attempts = add64 d.attempts (pos 1);
  last_error = "";
  next_attempt_at = zero_time;
  updated_at = now;
}

-- MarkForRetry
unfoldable pub mark_for_retry : String → Time → Time → Delivery → Delivery
mark_for_retry reason next now d = record d {
  status = failed;
  attempts = add64 d.attempts (pos 1);
  last_error = reason;
  next_attempt_at = next;
  updated_at = now;
}

-- MarkExhausted
unfoldable pub mark_exhausted : String → Time → Delivery → Delivery
mark_exhausted reason now d = record d {
  status = exhausted;
  attempts = add64 d.attempts (pos 1);
  last_error = reason;
  next_attempt_at = zero_time;
  updated_at = now;
}

-- Sign, over the hexadecimal HMAC-SHA256 of a body under a secret.
abbrev pub Hmac : Type 0
Hmac = String → Body → String

unfoldable pub sign : Hmac → String → Body → String
sign hmac secret body = "sha256=" <> hmac secret body

pub record SendRequest : Type 0 where
  pub url : String
  pub event_type : String
  pub webhook_id : String
  pub signature : String
  pub body : Body

pub record RetriableDelivery : Type 0 where
  pub delivery : Delivery
  pub url : String
  pub secret : String
