-- ===== src/Usecase/Ports.antt =====
-- The driven ports of the use cases: internal/domain/payment/repository.go,
-- internal/domain/psp/gateway.go, and the TxManager of
-- internal/application/usecase/create_payment.go.
use payment_service.Base.{String, Option, none, some, M, pure}
use payment_service.Base.Int.{ℤ}
use payment_service.Payment.{Payment}
use payment_service.Outbox.{Event, Repository}

-- payment.Repository, as far as the four writing use cases and GetPayment call it.
pub record PaymentRepository (W : Type 0) : Type 0 where
  pub save : Payment → M W (Unit {0})
  pub update : Payment → M W (Unit {0})
  pub find_by_id : String → M W Payment

-- `other_outcome` is a text that is none of the constants.
pub data PspOutcome : Type 0 where
  approved declined : PspOutcome
  other_outcome : String → PspOutcome

pub record AuthorizationResult : Type 0 where
  pub outcome : PspOutcome
  pub provider_id : String
  pub reason : String

-- psp.Gateway
pub record Gateway (W : Type 0) : Type 0 where
  pub authorize : Payment → M W AuthorizationResult
  pub capture : Payment → M W String
  pub refund : Payment → ℤ → M W String

-- TxManager.WithinTx
abbrev pub TxManager : Type 0 → Type 0
TxManager W = M W (Unit {0}) → M W (Unit {0})

-- withinTx of each use case: without a manager the function runs by itself.
unfoldable pub within_tx : {W : Type 0} → Option (TxManager W) → TxManager W
within_tx none fn = fn
within_tx (some tx) fn = tx fn

-- addEvent of each use case: without an outbox nothing is written.
unfoldable pub add_event : {W : Type 0} → Option (Repository W) → Event → M W (Unit {0})
add_event none event = pure tt
add_event (some outbox) event = outbox.add event
