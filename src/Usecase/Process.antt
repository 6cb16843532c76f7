-- ===== src/Usecase/Process.antt =====
-- internal/application/usecase/process_payment.go
use payment_service.Base.{String, Option, none, some, M, Result, ok, err, pure, lift, ◌>>=◌, ◌>>◌}
use payment_service.Base.Int.{ℤ}
use payment_service.Payment.{
  Payment, Time, CaptureMethod, manual, status_text, mark_authorized, complete, fail,
}
use payment_service.Outbox.{Repository}
use payment_service.Usecase.Ports.{
  PaymentRepository, Gateway, TxManager, approved, AuthorizationResult, within_tx, add_event,
}
use payment_service.Usecase.Events.{
  TimeFormat, event_payment_authorized, event_payment_completed, event_payment_failed,
  build_payment_event,
}

pub record ProcessPaymentInput : Type 0 where
  pub payment_id : String
  pub amount : ℤ
  pub currency : String

pub record ProcessPaymentOutput : Type 0 where
  pub payment_id : String
  pub status : String

pub record ProcessPayment (W : Type 0) : Type 0 where
  pub repo : PaymentRepository W
  pub gateway : Option (Gateway W)
  pub outbox : Option (Repository W)
  pub tx : Option (TxManager W)

abbrev with_event : Result Payment → String → Result (Payment × String)
with_event (ok p) type = ok (p, type)
with_event (err e) type = err e

abbrev approved_payment : CaptureMethod → Payment → Result (Payment × String)
approved_payment manual p = with_event (mark_authorized p) event_payment_authorized
approved_payment _ p = with_event (complete p) event_payment_completed

-- applyOutcome, without its log line
unfoldable pub apply_outcome : Payment → AuthorizationResult → Result (Payment × String)
unfolding mark_authorized complete fail
apply_outcome p result = elim result.outcome [
  | approved ↦ approved_payment p.capture_method p
  | _ ↦ with_event (fail p) event_payment_failed
]

module _ {W : Type 0} where
  -- authorize: without a gateway every payment is approved.
  unfoldable pub authorize : Option (Gateway W) → Payment → M W AuthorizationResult
  authorize none p = pure (record { outcome = approved; provider_id = ""; reason = "" })
  authorize (some gateway) p = gateway.authorize p

module _ {W : Type 0} (format : TimeFormat) (uc : ProcessPayment W) where
  -- ProcessPayment.Execute
  unfoldable pub execute : ProcessPaymentInput → String → Time → M W ProcessPaymentOutput
  execute input event_id event_at = do
    p ← uc.repo.find_by_id input.payment_id
    result ← authorize uc.gateway p
    changed ← lift (apply_outcome p result)
    event ← lift (build_payment_event format changed.0 changed.1 event_id event_at)
    within_tx uc.tx (uc.repo.update changed.0 >> add_event uc.outbox event)
    pure (record { payment_id = changed.0.id; status = status_text changed.0.status })
