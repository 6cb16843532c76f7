-- ===== src/Tests/Atomic.antt =====
-- What a run did to the tables, at concrete tables.
use payment_service.Base.{Bool, String, refl}
use payment_service.Payment.{Time}
use payment_service.Messaging.{handle_payment, unmarshal_created}
use payment_service.Messaging.Atomic.{Handled, handle_payment-Handled}
use payment_service.Usecase.Events.{payment_payload}
use payment_service.Usecase.Laws.{Tables}
use payment_service.Base.Int.{pos}
use payment_service.Payment.{pending, authorized, completed}
use payment_service.Usecase.Laws.{Outcome}
use payment_service.Usecase.Memory.{
  repository, outbox, repository-RepositoryLaws, outbox-OutboxLaws,
}
use payment_service.Usecase.InMemory.{transaction}
use payment_service.Usecase.Create.{CreatePaymentRequest, Fresh}
use payment_service.Usecase.Create
use payment_service.Usecase.Process.{ProcessPaymentInput, apply_outcome}
use payment_service.Usecase.Process
use payment_service.Usecase.Capture
use payment_service.Usecase.Refund.{asked_amount}
use payment_service.Usecase.Refund
use payment_service.Usecase.Atomic.Started.{Created, create-Outcome, Processed, process-Outcome}
use payment_service.Usecase.Atomic.Settled.{Captured, capture-Outcome, Refunded, refund-Outcome}
use payment_service.Tests.Fixtures.{payment, format, parse}
use payment_service.Tests.Tables.{
  gateway, holding, request, fresh, transaction-TxLaws, gateway-GatewayLaws, empty, input, creator,
  processor, capturer, refunder,
}

create-Outcome_example :
    Outcome
      (λ t. t)
      (empty)
      (Created
        (λ t. t)
        repository
        (outbox (pos 9))
        transaction
        repository-RepositoryLaws
        (outbox-OutboxLaws (pos 9))
        transaction-TxLaws
        format
        request
        fresh
        empty)
      (Create.execute format creator request fresh empty)
create-Outcome_example =
    create-Outcome (λ t. t) repository (outbox (pos 9)) transaction repository-RepositoryLaws
      (outbox-OutboxLaws (pos 9)) transaction-TxLaws format request fresh empty

process-Outcome_example :
    Outcome
      (λ t. t)
      (holding (payment pending 0))
      (Processed
        (λ t. t)
        repository
        (outbox (pos 9))
        transaction
        repository-RepositoryLaws
        (outbox-OutboxLaws (pos 9))
        transaction-TxLaws
        gateway
        gateway-GatewayLaws
        format
        input
        "e"
        (pos 5)
        (holding (payment pending 0)))
      (Process.execute format processor input "e" (pos 5) (holding (payment pending 0)))
process-Outcome_example =
    process-Outcome (λ t. t) repository (outbox (pos 9)) transaction repository-RepositoryLaws
      (outbox-OutboxLaws (pos 9)) transaction-TxLaws gateway gateway-GatewayLaws format input "e"
      (pos 5) (holding (payment pending 0))

capture-Outcome_example :
    Outcome
      (λ t. t)
      (holding (payment authorized 0))
      (Captured
        (λ t. t)
        repository
        (outbox (pos 9))
        transaction
        repository-RepositoryLaws
        (outbox-OutboxLaws (pos 9))
        transaction-TxLaws
        gateway
        gateway-GatewayLaws
        format
        "pay-1"
        "e"
        (pos 5)
        (holding (payment authorized 0)))
      (Capture.execute format capturer "pay-1" "e" (pos 5) (holding (payment authorized 0)))
capture-Outcome_example =
    capture-Outcome (λ t. t) repository (outbox (pos 9)) transaction repository-RepositoryLaws
      (outbox-OutboxLaws (pos 9)) transaction-TxLaws gateway gateway-GatewayLaws format "pay-1" "e"
      (pos 5) (holding (payment authorized 0))

refund-Outcome_example :
    Outcome
      (λ t. t)
      (holding (payment completed 0))
      (Refunded
        (λ t. t)
        repository
        (outbox (pos 9))
        transaction
        repository-RepositoryLaws
        (outbox-OutboxLaws (pos 9))
        transaction-TxLaws
        gateway
        gateway-GatewayLaws
        format
        "pay-1"
        (pos 3000)
        "e"
        (pos 5)
        (holding (payment completed 0)))
      (Refund.execute format refunder "pay-1"
        (pos 3000)
        "e"
        (pos 5)
        (holding (payment completed 0)))
refund-Outcome_example =
    refund-Outcome (λ t. t) repository (outbox (pos 9)) transaction repository-RepositoryLaws
      (outbox-OutboxLaws (pos 9)) transaction-TxLaws gateway gateway-GatewayLaws format "pay-1"
      (pos 3000) "e" (pos 5) (holding (payment completed 0))

abbrev drawn : Tables → (String × Time) × Tables
drawn t = (("e", pos 5), t)

handle_payment-Handled_example :
    Handled
      (λ t. t)
      repository
      (outbox (pos 9))
      transaction
      repository-RepositoryLaws
      (outbox-OutboxLaws (pos 9))
      transaction-TxLaws
      gateway
      gateway-GatewayLaws
      drawn
      (λ t. refl)
      format
      (holding (payment pending 0))
      (unmarshal_created parse (payment_payload (payment pending 0) "0001-01-01T00:00:00Z"))
      (handle_payment
        (λ k. Bool.false)
        (pos 3)
        parse
        (λ input t. Process.execute format processor input "e" (pos 5) t)
        (payment_payload (payment pending 0) "0001-01-01T00:00:00Z")
        (holding (payment pending 0)))
handle_payment-Handled_example =
    handle_payment-Handled (λ t. t) repository (outbox (pos 9)) transaction
      repository-RepositoryLaws (outbox-OutboxLaws (pos 9)) transaction-TxLaws gateway
      gateway-GatewayLaws drawn (λ t. refl) format (λ k. Bool.false) 3 parse
      (payment_payload (payment pending 0) "0001-01-01T00:00:00Z") (holding (payment pending 0))
