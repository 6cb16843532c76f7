-- ===== src/Tests/Webhooks.antt =====
-- Webhook deliveries, notifications and the audit trail at concrete events.
use payment_service.Base.{
  ◌≡◌, refl, ◌⊎◌, List, [], ◌∷◌, some, ok, err, other, M, true, arith, suc, ℕ, string_discrete,
}
use payment_service.Base.Int.{pos, ◌≤ℤ◌, ◌<ℤ◌, ◌+ℤ◌, ◌*ℤ◌, add64}
use payment_service.Base.Dict.{Dict, lookup}
use payment_service.Json.{text, number, object, Body, unmarshal_id, field}
use payment_service.Webhook.{Delivery, pending, failed, delivered, exhausted, zero_time}
use payment_service.Webhook.Attempt.{
  BackoffPolicy, next_delay, apply_attempt_outcome, delivery_failure_reason,
}
use payment_service.Webhook.Backoff.{Succeeds, next_delay-eq, apply_attempt_outcome_cases}
use payment_service.Webhook.Schedule.{Try, run, OnSchedule, run-OnSchedule, run_exhausts}
use payment_service.Audit.{AuditRepository, audit_id}
use payment_service.Audit.Trail.{Received, handle, handle_all, handle_again}
use payment_service.Audit
use payment_service.Notification.{Notification, PaymentEvent, unmarshal_event, sent, build_message}
use payment_service.Notification.Log.{run as notify, execute_logged}
use payment_service.Notification

abbrev policy : BackoffPolicy
policy = record { max_attempts = pos 2; base_delay = pos 30 }

abbrev entry : Delivery
entry = record {
  id = "d";
  subscription_id = "s";
  event_id = "h";
  event_type = "payment.completed";
  payload = object [];
  status = pending;
  attempts = pos 0;
  last_error = "";
  next_attempt_at = zero_time;
  created_at = pos 1;
  updated_at = pos 1;
}

entry-OnSchedule : OnSchedule 2 (entry, 0)
entry-OnSchedule = record { tallied = refl; counted = refl }

-- An answer 500, and no answer.
abbrev two_tries : List Try
two_tries =
    record { attempt = ok (pos 500); now = pos 10; at = pos 11 }
    ∷ record { attempt = err (other "timeout"); now = pos 50; at = pos 51 }
    ∷ []

run-OnSchedule_example : OnSchedule 2 (run policy two_tries (entry, 0))
run-OnSchedule_example =
    run-OnSchedule policy 2 (omega arith) (omega arith) refl two_tries entry 0 entry-OnSchedule

run_exhausts_example :
    ((run policy two_tries (entry, 0)).0.status ≡ exhausted)
    × ((run policy two_tries (entry, 0)).1 ≡ 2)
run_exhausts_example =
    run_exhausts policy 2 (omega arith) (omega arith) refl two_tries entry 0 entry-OnSchedule refl
      ((λ good. ground (arith, good)), ((λ bad. absurd bad), tt)) (omega arith)

next_delay-eq_example : next_delay policy (pos 4) ≡ pos 240
unfolding ◌*ℤ◌
next_delay-eq_example = next_delay-eq policy 3 (omega arith) (omega arith, omega arith)

apply_attempt_outcome_cases_example :
    let d' = apply_attempt_outcome policy (ok (pos 500)) (pos 10) (pos 11) entry in
    (d'.attempts ≡ add64 (pos 0) (pos 1))
    × ((Succeeds (ok (pos 500))
          × (d'.status ≡ delivered)
          × (d'.last_error ≡ "")
          × (d'.next_attempt_at ≡ zero_time))
        ⊎ (¬ Succeeds (ok (pos 500))
            × (pos 2 ≤ℤ d'.attempts)
            × (d'.status ≡ exhausted)
            × (d'.last_error ≡ delivery_failure_reason (ok (pos 500)))
            × (d'.next_attempt_at ≡ zero_time))
        ⊎ (¬ Succeeds (ok (pos 500))
            × (d'.attempts <ℤ pos 2)
            × (d'.status ≡ failed)
            × (d'.last_error ≡ delivery_failure_reason (ok (pos 500)))
            × (d'.next_attempt_at ≡ pos 10 +ℤ next_delay policy d'.attempts)))
apply_attempt_outcome_cases_example =
    apply_attempt_outcome_cases policy (ok (pos 500)) (pos 10) (pos 11) entry

abbrev late : Delivery
late = record entry { status = failed; next_attempt_at = pos 40 }

abbrev deliveries : Dict Delivery
deliveries = ("s:h", late) ∷ []

abbrev payload : Body
payload = object (
    ("id", text "pay-1")
    ∷ ("amount", number (pos 10000))
    ∷ ("currency", text "BRL")
    ∷ ("status", text "completed")
    ∷ [])

abbrev message : Received
message = record {
  event_id = "e";
  event_type = "payment.completed";
  payload = payload;
  now = pos 7;
}

abbrev body_digest : Audit.Digest
body_digest event_type body = event_type

abbrev trail : AuditRepository
trail = record { entries = []; order = [] }

readable : (unmarshal_id payload).1 ≡ true
unfolding unmarshal_id field string_discrete
readable = refl

handle_again_example :
    handle body_digest
      (record message { now = pos 99 })
      (handle_all body_digest (message ∷ []) (handle body_digest message trail))
    ≡ handle_all body_digest (message ∷ []) (handle body_digest message trail)
handle_again_example = handle_again body_digest message (message ∷ []) (pos 99) trail readable

abbrev text_digest : Notification.Digest
text_digest s = s

abbrev float : Notification.FloatFormat
float a = "100.00"

-- A notifier that counts.
abbrev count : Notification → M ℕ (Unit {0})
count n v = (ok tt, suc v)

abbrev completed_event : PaymentEvent
completed_event = record {
  id = "pay-1";
  amount = pos 10000;
  currency = "BRL";
  status = "completed";
}

decoded : unmarshal_event payload ≡ ok completed_event
unfolding unmarshal_event field string_discrete
decoded = refl

execute_logged_example :
    let left =
      notify text_digest float count "" "payment.completed" payload (pos 1) (pos 2) (0, []) in
    (left.0 ≡ ok tt)
    × (left.1.0 ≡ 1)
    × ((m : Notification) × (lookup "pay-1:payment.completed:email" left.1.1 ≡ some m)
        × (m.status ≡ sent)
        × (m.last_error ≡ "")
        × (m.message_text ≡ build_message float "payment.completed" completed_event))
unfolding Notification.notification_of Notification.new_notification Notification.notification_id
    string_discrete
execute_logged_example =
    execute_logged text_digest float count "" "payment.completed" payload (pos 1) (pos 2)
      completed_event (0, []) decoded
