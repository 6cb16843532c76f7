-- ===== src/Notification/Log.antt =====
-- What a run of NotifyPayment.Execute (internal/application/notification/notify.go) sends and
-- stores, over the repository of
-- internal/infrastructure/persistence/memory/notification_repository.go.
use payment_service.Base.{◌≡◌, refl, String, some, M, Result, ok, err, wrapped, message}
use payment_service.Base.Dict.{Dict, lookup, lookup-insert_self}
use payment_service.Payment.{Time}
use payment_service.Json.{Body}
use payment_service.Notification.{
  Notification, Status, sent, failed, PaymentEvent, unmarshal_event, Digest, FloatFormat,
  notification_of, mark_sent, mark_failed, build_message, new_notification, marked, reported,
  execute, save_notification,
}

-- The notifier's world beside the table.
abbrev pub World : Type 0 → Type 0
World V = V × Dict Notification

module _ {V : Type 0} (digest : Digest) (float : FloatFormat) (send : Notification → M V (Unit {0}))
    (channel : String) where
  abbrev pub send_beside : Notification → M (World V) (Unit {0})
  send_beside n (v, log) = ((send n v).0, ((send n v).1, log))

  abbrev pub save_beside : Notification → M (World V) (Unit {0})
  save_beside n (v, log) = (ok tt, (v, save_notification n log))

  abbrev pub run : String → Body → Time → Time → M (World V) (Unit {0})
  run = execute digest float send_beside save_beside channel

  abbrev built : String → PaymentEvent → Time → Notification
  built = notification_of digest float send_beside save_beside channel

  -- What is returned for an answer of the notifier.
  abbrev pub answer_of : Result (Unit {0}) → Result (Unit {0})
  answer_of (ok _) = ok tt
  answer_of (err e) = err (wrapped "send notification" e)

  -- The status and the last error that are stored for an answer of the notifier.
  abbrev pub logged : Result (Unit {0}) → Status × String
  logged (ok _) = (sent, "")
  logged (err e) = (failed, message e)

  reported-eq : (r : Result (Unit {0})) (w : World V) → reported r w ≡ (answer_of r, w)
  reported-eq (ok _) w = refl
  reported-eq (err e) w = refl

  run_decoded :
      (event_type : String) (payload : Body) (now at : Time) (event : PaymentEvent) (w : World V)
      → unmarshal_event payload ≡ ok event
      → run event_type payload now at w ≡ (
        answer_of (send (built event_type event now) w.0).0,
        (
          (send (built event_type event now) w.0).1,
          save_notification
              (marked (send (built event_type event now) w.0).0 at (built event_type event now))
              w.1,
        ),
      )
  unfolding execute
  run_decoded event_type payload now at event w decoded =
      rw (execute, decoded) (reported-eq (send (built event_type event now) w.0).0 _)

  marked-lookup :
      (r : Result (Unit {0})) (at : Time) (n : Notification) (log : Dict Notification)
      → (m : Notification) × (lookup n.id (save_notification (marked r at n) log) ≡ some m)
        × (m.status ≡ (logged r).0)
        × (m.last_error ≡ (logged r).1)
        × (m.message_text ≡ n.message_text)
  unfolding save_notification mark_sent mark_failed
  marked-lookup (ok _) at n log = (mark_sent at n, lookup-insert_self n.id _ log, refl, refl, refl)
  marked-lookup (err e) at n log =
      (mark_failed (message e) at n, lookup-insert_self n.id _ log, refl, refl, refl)

  -- On a payload that can be read the notifier is asked once, its answer is what the run returns,
  -- and the table in memory holds the notification with its text: sent and without error if the
  -- notifier accepted, failed with the notifier's error if not.
  pub execute_logged :
      (event_type : String) (payload : Body) (now at : Time) (event : PaymentEvent) (w : World V)
      → unmarshal_event payload ≡ ok event
      → let answer = send (built event_type event now) w.0 in
        let left = run event_type payload now at w in
        (left.0 ≡ answer_of answer.0)
        × (left.1.0 ≡ answer.1)
        × ((m : Notification) × (lookup (built event_type event now).id left.1.1 ≡ some m)
            × (m.status ≡ (logged answer.0).0)
            × (m.last_error ≡ (logged answer.0).1)
            × (m.message_text ≡ build_message float event_type event))
  unfolding notification_of new_notification
  execute_logged event_type payload now at event w decoded =
      rw (run_decoded event_type payload now at event w decoded) (
        refl,
        refl,
        marked-lookup (send (built event_type event now) w.0).0 at (built event_type event now) w.1,
      )

  -- An event that can be read and is handled twice, at whatever times, is sent twice: the notifier
  -- is asked again although the notification is stored under the same id.
  pub sent_again :
      (event_type : String) (payload : Body) (now at now' at' : Time) (event : PaymentEvent)
      (w : World V)
      → unmarshal_event payload ≡ ok event
      → (run event_type payload now' at' (run event_type payload now at w).1).1.0
        ≡ (send (built event_type event now') (send (built event_type event now) w.0).1).1
  sent_again event_type payload now at now' at' event w decoded =
      rw
        (
          run_decoded event_type payload now at event w decoded,
          run_decoded event_type payload now' at' event,
          decoded,
        )
        refl
