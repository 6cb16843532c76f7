-- ===== src/Usecase/InMemory.antt =====
-- The four writing use cases wired as their tests wire them, over the repositories in memory, with a
-- transaction that restores a snapshot and the simulated provider: what a run does then, to the last
-- value.
use payment_service.Base.{
  ◌≡◌, refl, ap, ◌∙◌, String, ◌<>◌, some, Result, ok, err, if◌then◌else◌, arith,
}
use payment_service.Base.Int.{ℤ, pos}
use payment_service.Base.Dict.{lookup}
use payment_service.Payment.{Payment, Time, status_text, new_with_options}
use payment_service.Payment
use payment_service.Outbox.{Event}
use payment_service.Outbox.Memory
use payment_service.Usecase.Ports.{
  Gateway, TxManager, within_tx, add_event, AuthorizationResult, approved, declined,
}
use payment_service.Usecase.Events.{
  TimeFormat, to_payment_response, build_payment_event, event_payment_created,
  event_payment_completed, event_payment_refunded,
}
use payment_service.Usecase.Laws.{Tables, store_payment, store_event}
use payment_service.Usecase.Mock.{is_even, mock_gateway, simulate_latency}
use payment_service.Usecase.Mock
use payment_service.Payment.Lifecycle.{Call, captures, refunds, apply, apply-SameOrder}
use payment_service.Usecase.Memory.{repository, outbox, find_by_id, update, save}
use payment_service.Usecase.Create.{CreatePaymentRequest, Fresh, chosen_installments, chosen_method}
use payment_service.Usecase.Create
use payment_service.Usecase.Process.{ProcessPaymentInput, apply_outcome}
use payment_service.Usecase.Process
use payment_service.Usecase.Capture
use payment_service.Usecase.Refund.{asked_amount}
use payment_service.Usecase.Refund

-- The tables after a function that ran on `saved`.
abbrev pub settle : Tables → Result (Unit {0}) × Tables → Result (Unit {0}) × Tables
settle saved (ok _, t) = (ok tt, t)
settle saved (err e, t) = (err e, saved)

-- A transaction that keeps the tables of its begin, and brings them back when its function fails.
unfoldable pub transaction : TxManager Tables
transaction fn t = settle t (fn t)

abbrev pub provider : String → Gateway Tables
provider id = mock_gateway (pos 0) (λ d t. (ok tt, t)) (λ t. (id, t))

found :
    (id : String) (t : Tables) (p : Payment)
    → lookup id t.payments ≡ some p
    → repository.find_by_id id t ≡ (ok p, t)
unfolding repository find_by_id
found id t p h = rw (find_by_id, h) refl

updated :
    (q : Payment) (t : Tables) (p : Payment)
    → lookup q.id t.payments ≡ some p
    → repository.update q t ≡ (ok tt, store_payment q t)
unfolding repository update
updated q t p h = rw (update, h) refl

-- A call keeps the id, so the row that was read is the one that is updated.
same_row :
    (c : Call) (p : Payment) {q : Payment} (t : Tables)
    → lookup p.id t.payments ≡ some p
    → apply c p ≡ ok q
    → repository.update q t ≡ (ok tt, store_payment q t)
same_row c p {q} t stored moved =
    updated q t p (ap (λ i. lookup i t.payments) (apply-SameOrder c p moved).0 ∙ stored)

apply_outcome-id :
    (p : Payment) (result : AuthorizationResult) {q : Payment} {type : String}
    → apply_outcome p result ≡ ok (q, type)
    → q.id ≡ p.id
unfolding apply_outcome
apply_outcome-id p result h = ground arith

module _ (format : TimeFormat) (now : Time) (provider_id : String) where
  -- Over the repositories in memory and a snapshot transaction, CreatePayment of a request that
  -- NewWithOptions accepts, with its defaults filled in, and whose event can be built, succeeds:
  -- it returns the new payment, stores it, appends its payment.created event, and changes nothing
  -- else.
  pub create_stored :
      (req : CreatePaymentRequest) (new : Fresh) (t : Tables) (p : Payment) (event : Event)
      → new_with_options req.amount req.currency
          (chosen_installments req)
          (chosen_method req)
          new.payment_id
          new.created_at
        ≡ ok p
      → build_payment_event format p event_payment_created new.event_id new.event_at ≡ ok event
      → Create.execute format
          (record { repo = repository; outbox = outbox now; tx = some transaction })
          req
          new
          t
        ≡ (ok (to_payment_response p), store_event event (store_payment p t))
  unfolding Create.execute within_tx transaction repository save outbox Memory.add
  create_stored req new t p event made built = rw (Create.execute, made, built) refl

  -- Over the repositories in memory, a snapshot transaction and the simulated provider without
  -- latency, CapturePayment of a stored payment that can be captured, and whose event can be
  -- built, succeeds: it returns the captured payment, stores it, appends its payment.completed
  -- event, and changes nothing else.
  pub capture_stored :
      (event_id : String) (event_at : Time) (t : Tables) (p q : Payment) (event : Event)
      → lookup p.id t.payments ≡ some p
      → Payment.capture p ≡ ok q
      → build_payment_event format q event_payment_completed event_id event_at ≡ ok event
      → Capture.execute format
          (record {
            repo = repository;
            gateway = provider provider_id;
            outbox = some (outbox now);
            tx = some transaction;
          })
          p.id
          event_id
          event_at
          t
        ≡ (ok (to_payment_response q), store_event event (store_payment q t))
  unfolding Capture.execute within_tx add_event transaction outbox Memory.add mock_gateway
      Mock.capture simulate_latency apply
  capture_stored event_id event_at t p q event stored moved built =
      rw (Capture.execute, found p.id t p stored, moved, built, same_row captures p t stored moved)
        refl

  -- Over the repositories in memory, a snapshot transaction and the simulated provider without
  -- latency, RefundPayment of a stored payment that allows the refund of the asked amount, and
  -- whose event can be built, succeeds: it returns the payment after the refund, stores it and
  -- appends its event, and changes nothing else.
  pub refund_stored :
      (amount : ℤ) (event_id : String) (event_at : Time) (t : Tables) (p q : Payment)
      (event : Event)
      → lookup p.id t.payments ≡ some p
      → Payment.refund (asked_amount amount p) p ≡ ok q
      → build_payment_event format q event_payment_refunded event_id event_at ≡ ok event
      → Refund.execute format
          (record {
            repo = repository;
            gateway = provider provider_id;
            outbox = some (outbox now);
            tx = some transaction;
          })
          p.id
          amount
          event_id
          event_at
          t
        ≡ (ok (to_payment_response q), store_event event (store_payment q t))
  unfolding Refund.execute within_tx add_event transaction outbox Memory.add mock_gateway
      Mock.refund simulate_latency apply
  refund_stored amount event_id event_at t p q event stored moved built =
      rw
        (
          Refund.execute,
          found p.id t p stored,
          moved,
          built,
          same_row (refunds (asked_amount amount p)) p t stored moved,
        )
        refl

  -- What the simulated provider answers for a payment.
  abbrev pub answer : Payment → AuthorizationResult
  answer p =
      if is_even p.money.amount
      then record { outcome = approved; provider_id = "psp_" <> provider_id; reason = "" }
      else record {
        outcome = declined;
        provider_id = "psp_" <> provider_id;
        reason = "insufficient funds";
      }

  -- Over the repositories in memory, a snapshot transaction and the simulated provider without
  -- latency, ProcessPayment of a stored payment that admits the provider's answer to its amount,
  -- and whose event can be built, succeeds: it returns the new status, stores the payment, appends
  -- the transition's event, and changes nothing else.
  pub process_stored :
      (input : ProcessPaymentInput) (event_id : String) (event_at : Time) (t : Tables)
      (p q : Payment) (type : String) (event : Event)
      → input.payment_id ≡ p.id
      → lookup p.id t.payments ≡ some p
      → apply_outcome p (answer p) ≡ ok (q, type)
      → build_payment_event format q type event_id event_at ≡ ok event
      → Process.execute format
          (record {
            repo = repository;
            gateway = some (provider provider_id);
            outbox = some (outbox now);
            tx = some transaction;
          })
          input
          event_id
          event_at
          t
        ≡ (
          ok (record { payment_id = q.id; status = status_text q.status }),
          store_event event (store_payment q t),
        )
  unfolding Process.execute Process.authorize within_tx add_event transaction outbox Memory.add
      mock_gateway Mock.authorize simulate_latency
  process_stored input event_id event_at t p q type event same stored moved built =
      rw
        (
          Process.execute,
          same,
          found p.id t p stored,
          moved,
          built,
          updated q t p
              (ap (λ i. lookup i t.payments) (apply_outcome-id p (answer p) moved) ∙ stored),
        )
        refl
