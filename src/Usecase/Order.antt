-- ===== src/Usecase/Order.antt =====
-- In which order CapturePayment, RefundPayment and ProcessPayment check and act
-- (internal/application/usecase), and applyOutcome of process_payment.go.
use payment_service.Base.{
  ◌≡◌, refl, ◌≢◌, ◌⊎◌, String, some, ok, err, Error, invalid_transition, arith, true,
  string_discrete,
}
use payment_service.Base.Int.{ℤ}
use payment_service.Payment.{Payment, Time, pending, authorized, completed, failed, manual}
use payment_service.Payment
use payment_service.Json.{unmarshal_id}
use payment_service.Outbox.{Event}
use payment_service.Usecase.Ports.{Gateway, AuthorizationResult, approved}
use payment_service.Usecase.Events.{
  TimeFormat, event_payment_authorized, event_payment_completed, event_payment_failed,
  build_payment_event, payment_payload,
}
use payment_service.Usecase.Process.{ProcessPaymentInput, apply_outcome}
use payment_service.Usecase.Process
use payment_service.Usecase.Capture
use payment_service.Usecase.Refund.{asked_amount}
use payment_service.Usecase.Refund

-- A payment that is not authorized is not captured: the run ends after the read, in the world that
-- the read left, with neither the provider nor a table touched.
pub capture_refused :
    {W : Type 0} (format : TimeFormat) (uc : Capture.CapturePayment W)
    (payment_id event_id : String) (event_at : Time) (w w' : W) (p : Payment)
    → uc.repo.find_by_id payment_id w ≡ (ok p, w')
    → p.status ≢ authorized
    → Capture.execute format uc payment_id event_id event_at w ≡ (err invalid_transition, w')
unfolding Capture.execute Payment.capture
capture_refused format uc payment_id event_id event_at w w' p found h =
    rw (found, Capture.execute) (ground arith)

-- So with a refund that the payment does not admit, whatever the reason.
pub refund_refused :
    {W : Type 0} (format : TimeFormat) (uc : Refund.RefundPayment W) (payment_id : String)
    (amount : ℤ) (event_id : String) (event_at : Time) (w w' : W) (p : Payment) (e : Error)
    → uc.repo.find_by_id payment_id w ≡ (ok p, w')
    → Payment.refund (asked_amount amount p) p ≡ err e
    → Refund.execute format uc payment_id amount event_id event_at w ≡ (err e, w')
unfolding Refund.execute
refund_refused format uc payment_id amount event_id event_at w w' p e found h =
    rw (found, Refund.execute, h) refl

-- The transition and the event for an answer of the provider.
abbrev pub OutcomeCases : Payment → AuthorizationResult → Type 0
OutcomeCases p result =
    ((p.status ≢ pending) × (apply_outcome p result ≡ err invalid_transition))
    ⊎ ((p.status ≡ pending)
        × (result.outcome ≡ approved)
        × (p.capture_method ≡ manual)
        × (apply_outcome p result
            ≡ ok (record p { status = authorized }, event_payment_authorized)))
    ⊎ ((p.status ≡ pending)
        × (result.outcome ≡ approved)
        × (p.capture_method ≢ manual)
        × (apply_outcome p result ≡ ok (record p { status = completed }, event_payment_completed)))
    ⊎ ((p.status ≡ pending)
        × (result.outcome ≢ approved)
        × (apply_outcome p result ≡ ok (record p { status = failed }, event_payment_failed)))

-- A payment that is not pending admits no answer of the provider. A pending one that is not
-- approved fails, with payment.failed; approved, it is authorized with payment.authorized if its
-- capture is manual and completed with payment.completed otherwise; nothing else of it changes.
pub apply-OutcomeCases : (p : Payment) (result : AuthorizationResult) → OutcomeCases p result
unfolding apply_outcome
apply-OutcomeCases p result = ground arith

apply_outcome_late :
    (p : Payment) (result : AuthorizationResult)
    → p.status ≢ pending
    → apply_outcome p result ≡ err invalid_transition
unfolding apply_outcome
apply_outcome_late p result h = ground arith

-- ProcessPayment of a payment that is found and no longer pending asks the provider once more and,
-- when it answers, fails with ErrInvalidTransition in the world that the answer left.
pub process_again :
    {W : Type 0} (format : TimeFormat) (uc : Process.ProcessPayment W) (gateway : Gateway W)
    (input : ProcessPaymentInput) (event_id : String) (event_at : Time) (w w' w'' : W) (p : Payment)
    (result : AuthorizationResult)
    → uc.gateway ≡ some gateway
    → uc.repo.find_by_id input.payment_id w ≡ (ok p, w')
    → gateway.authorize p w' ≡ (ok result, w'')
    → p.status ≢ pending
    → Process.execute format uc input event_id event_at w ≡ (err invalid_transition, w'')
unfolding Process.execute Process.authorize
process_again format uc gateway input event_id event_at w w' w'' p result has found answered h =
    rw (found, Process.execute, has, answered, apply_outcome_late p result h)

-- The event that is stored for a payment carries the payment's id for those who read it.
pub unmarshal_id-build_payment_event :
    (format : TimeFormat) (p : Payment) (type event_id : String) (event_at : Time) {event : Event}
    → build_payment_event format p type event_id event_at ≡ ok event
    → (unmarshal_id event.payload ≡ (p.id, true)) × (event.aggregate_id ≡ p.id)
unfolding build_payment_event payment_payload unmarshal_id string_discrete
unmarshal_id-build_payment_event format p type event_id event_at built = ground arith
