-- ===== src/Usecase/Refund.antt =====
-- internal/application/usecase/refund_payment.go
use payment_service.Base.{String, Option, M, pure, lift, ◌>>=◌, ◌>>◌, if◌then◌else◌}
use payment_service.Base.Int.{ℤ, pos, leb_ℤ}
use payment_service.Payment.{Time, Payment, refundable_amount}
use payment_service.Payment
use payment_service.Outbox.{Repository}
use payment_service.Usecase.Ports.{PaymentRepository, Gateway, TxManager, within_tx, add_event}
use payment_service.Usecase.Events.{
  TimeFormat, event_payment_refunded, build_payment_event, PaymentResponse, to_payment_response,
}

pub record RefundPayment (W : Type 0) : Type 0 where
  pub repo : PaymentRepository W
  pub gateway : Gateway W
  pub outbox : Option (Repository W)
  pub tx : Option (TxManager W)

-- A request for no amount, or a negative one, asks for all that is left.
unfoldable pub asked_amount : ℤ → Payment → ℤ
asked_amount amount p = if leb_ℤ amount (pos 0) then refundable_amount p else amount

module _ {W : Type 0} (format : TimeFormat) (uc : RefundPayment W) where
  -- RefundPayment.Execute
  unfoldable pub execute : String → ℤ → String → Time → M W PaymentResponse
  execute payment_id amount event_id event_at = do
    p ← uc.repo.find_by_id payment_id
    let asked = asked_amount amount p
    q ← lift (Payment.refund asked p)
    _ ← uc.gateway.refund q asked
    event ← lift (build_payment_event format q event_payment_refunded event_id event_at)
    within_tx uc.tx (uc.repo.update q >> add_event uc.outbox event)
    pure (to_payment_response q)
