-- ===== src/Usecase/Create.antt =====
-- internal/application/usecase/create_payment.go
use payment_service.Base.{String, Option, M, pure, lift, ◌>>=◌, ◌>>◌, str_eq, if◌then◌else◌}
use payment_service.Base.Int.{ℤ, pos, eqb_ℤ}
use payment_service.Payment.{Time, CaptureMethod, automatic, capture_method_of, new_with_options}
use payment_service.Outbox.{Repository}
use payment_service.Usecase.Ports.{PaymentRepository, TxManager, within_tx}
use payment_service.Usecase.Events.{
  TimeFormat, event_payment_created, build_payment_event, PaymentResponse, to_payment_response,
}

-- dto.CreatePaymentRequest
pub record CreatePaymentRequest : Type 0 where
  pub amount : ℤ
  pub currency : String
  pub installments : ℤ
  pub capture_method : String

pub record CreatePayment (W : Type 0) : Type 0 where
  pub repo : PaymentRepository W
  pub outbox : Repository W
  pub tx : Option (TxManager W)

-- The defaults at the head of Execute.
abbrev pub chosen_installments : CreatePaymentRequest → ℤ
chosen_installments req = if eqb_ℤ req.installments (pos 0) then pos 1 else req.installments

abbrev pub chosen_method : CreatePaymentRequest → CaptureMethod
chosen_method req =
    if str_eq req.capture_method "" then automatic else capture_method_of req.capture_method

-- The ids and times that a run draws: of the payment, and of its event.
pub record Fresh : Type 0 where
  pub payment_id : String
  pub created_at : Time
  pub event_id : String
  pub event_at : Time

module _ {W : Type 0} (format : TimeFormat) (uc : CreatePayment W) where
  -- CreatePayment.Execute
  unfoldable pub execute : CreatePaymentRequest → Fresh → M W PaymentResponse
  execute req new = do
    p ← lift (
        new_with_options req.amount req.currency (chosen_installments req) (chosen_method req)
          new.payment_id new.created_at)
    event ← lift (build_payment_event format p event_payment_created new.event_id new.event_at)
    within_tx uc.tx (uc.repo.save p >> uc.outbox.add event)
    pure (to_payment_response p)
