-- ===== src/Notification.antt =====
-- The notifications: internal/domain/notification/notification.go,
-- internal/application/notification/notify.go and
-- internal/infrastructure/persistence/memory/notification_repository.go.
pub mod Log
use payment_service.Base.{
  Bool, true, false, ◌&&◌, String, ◌<>◌, List, [], ◌∷◌, M, Result, ok, err, message, wrap_error,
  after_call, str_eq, if◌then◌else◌,
}
use payment_service.Base.Int.{ℤ, pos}
use payment_service.Base.Dict.{Dict, insert}
use payment_service.Payment.{Time}
use payment_service.Json.{
  Body, object, null_body, no_object, field, read_text, read_number, json_error,
}

pub data Status : Type 0 where
  pending sent failed : Status

-- `channel` is a text, as in the source: "email", "sms", "push" or another one.
pub record Notification : Type 0 where
  pub id : String
  pub payment_id : String
  pub event_type : String
  pub channel : String
  pub recipient : String
  pub message_text : String
  pub status : Status
  pub last_error : String
  pub created_at : Time
  pub updated_at : Time

abbrev pub channel_email : String
channel_email = "email"

-- NewNotification
unfoldable pub new_notification :
    String → String → String → String → String → String → Time → Notification
new_notification id payment_id event_type channel recipient text now = record {
  id = id;
  payment_id = payment_id;
  event_type = event_type;
  channel = channel;
  recipient = recipient;
  message_text = text;
  status = pending;
  last_error = "";
  created_at = now;
  updated_at = now;
}

-- MarkSent
unfoldable pub mark_sent : Time → Notification → Notification
mark_sent now n = record n { status = sent; last_error = ""; updated_at = now }

-- MarkFailed
unfoldable pub mark_failed : String → Time → Notification → Notification
mark_failed reason now n = record n { status = failed; last_error = reason; updated_at = now }

-- paymentEventPayload
pub record PaymentEvent : Type 0 where
  pub id : String
  pub amount : ℤ
  pub currency : String
  pub status : String

-- json.Unmarshal into a paymentEventPayload.
unfoldable pub unmarshal_event : Body → Result PaymentEvent
unfolding field
unmarshal_event (no_object s) = err json_error
unmarshal_event null_body = ok (record { id = ""; amount = pos 0; currency = ""; status = "" })
unmarshal_event (object fields) =
    let id = field read_text "id" fields ("", true) in
    let amount = field read_number "amount" fields (pos 0, true) in
    let currency = field read_text "currency" fields ("", true) in
    let status = field read_text "status" fields ("", true) in
    if id.1 && amount.1 && currency.1 && status.1
    then ok (record { id = id.0; amount = amount.0; currency = currency.0; status = status.0 })
    else err json_error

-- The hexadecimal SHA-256 of a text.
abbrev pub Digest : Type 0
Digest = String → String

-- notificationID
unfoldable pub notification_id : Digest → String → String → String → String
notification_id digest payment_id event_type channel =
    digest (payment_id <> ":" <> event_type <> ":" <> channel)

-- recipientFor
unfoldable pub recipient_for : String → String
recipient_for payment_id = "customer+" <> payment_id <> "@example.com"

-- The verb %.2f on float64(amount) / 100.
abbrev pub FloatFormat : Type 0
FloatFormat = ℤ → String

-- formatAmount
unfoldable pub format_amount : FloatFormat → ℤ → String → String
format_amount float amount currency = currency <> " " <> float amount

-- buildMessage
unfoldable pub build_message : FloatFormat → String → PaymentEvent → String
unfolding format_amount
build_message float event_type event =
    let amount = format_amount float event.amount event.currency in
    if str_eq event_type "payment.completed"
    then "Seu pagamento de " <> amount <> " foi aprovado. ✅"
    else if str_eq event_type "payment.failed"
    then "Seu pagamento de " <> amount <> " foi recusado. ❌"
    else if str_eq event_type "payment.refunded"
    then "Seu pagamento de " <> amount <> " foi estornado. 💸"
    else "Atualização do seu pagamento de " <> amount <> ": " <> event.status <> "."

-- NewNotifyPayment's channel
abbrev pub chosen_channel : String → String
chosen_channel channel = if str_eq channel "" then channel_email else channel

-- A notification after its sending, at the time `now`.
abbrev pub marked : Result (Unit {0}) → Time → Notification → Notification
marked (ok _) now n = mark_sent now n
marked (err e) now n = mark_failed (message e) now n

-- What Execute returns once the record is saved.
abbrev pub reported : {W : Type 0} → Result (Unit {0}) → M W (Unit {0})
reported (ok _) w = (ok tt, w)
reported (err e) w = wrap_error "send notification" (λ w. (err e, w)) w

module _ {W : Type 0} (digest : Digest) (float : FloatFormat) (send : Notification → M W (Unit {0}))
    (save : Notification → M W (Unit {0})) (channel : String) where
  -- The notification that Execute builds.
  unfoldable pub notification_of : String → PaymentEvent → Time → Notification
  unfolding new_notification notification_id recipient_for build_message
  notification_of event_type event now =
      new_notification (notification_id digest event.id event_type (chosen_channel channel))
        event.id event_type (chosen_channel channel) (recipient_for event.id)
        (build_message float event_type event) now

  -- NotifyPayment.Execute: the notification is made at `now` and marked at `at`.
  unfoldable pub execute : String → Body → Time → Time → M W (Unit {0})
  unfolding unmarshal_event notification_of
  execute event_type payload now at w =
      after_call (wrap_error "unmarshal payment event" (λ w. (unmarshal_event payload, w)) w)
        λ event w1.
          let n = notification_of event_type event now in
          let answer = send n w1 in
          after_call (wrap_error "save notification" (save (marked answer.0 at n)) answer.1)
            λ _ w2. reported answer.0 w2

-- memory.NotificationRepository.Save
unfoldable pub save_notification : Notification → Dict Notification → Dict Notification
unfolding insert
save_notification n notifications = insert n.id n notifications

-- memory.NotificationRepository.All, in the order of the entries.
unfoldable pub all_notifications : Dict Notification → List Notification
all_notifications [] = []
all_notifications ((id, n) ∷ notifications) = n ∷ all_notifications notifications

-- LogNotifier.Send, without its line in the log.
unfoldable pub log_send : {W : Type 0} → Notification → M W (Unit {0})
log_send n w = (ok tt, w)
