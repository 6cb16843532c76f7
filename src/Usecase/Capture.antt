-- ===== src/Usecase/Capture.antt =====
-- internal/application/usecase/capture_payment.go
use payment_service.Base.{String, Option, M, pure, lift, ◌>>=◌, ◌>>◌}
use payment_service.Payment.{Time}
use payment_service.Payment
use payment_service.Outbox.{Repository}
use payment_service.Usecase.Ports.{PaymentRepository, Gateway, TxManager, within_tx, add_event}
use payment_service.Usecase.Events.{
  TimeFormat, event_payment_completed, build_payment_event, PaymentResponse, to_payment_response,
}

pub record CapturePayment (W : Type 0) : Type 0 where
  pub repo : PaymentRepository W
  pub gateway : Gateway W
  pub outbox : Option (Repository W)
  pub tx : Option (TxManager W)

module _ {W : Type 0} (format : TimeFormat) (uc : CapturePayment W) where
  -- CapturePayment.Execute
  unfoldable pub execute : String → String → Time → M W PaymentResponse
  execute payment_id event_id event_at = do
    p ← uc.repo.find_by_id payment_id
    q ← lift (Payment.capture p)
    _ ← uc.gateway.capture q
    event ← lift (build_payment_event format q event_payment_completed event_id event_at)
    within_tx uc.tx (uc.repo.update q >> add_event uc.outbox event)
    pure (to_payment_response q)
