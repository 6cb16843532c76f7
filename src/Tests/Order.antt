-- ===== src/Tests/Order.antt =====
-- Refused operations, the ports and the listing, at concrete tables.
use payment_service.Base.{◌≡◌, refl, err, invalid_transition}
use payment_service.Base.Int.{pos}
use payment_service.Payment.{completed}
use payment_service.Usecase.Ports.{approved}
use payment_service.Usecase.Mock.{
  mock_gateway, simulate_latency, authorize-is_even, mock_gateway-GatewayLaws, is_even,
}
use payment_service.Usecase.Mock
use payment_service.Usecase.Process.{ProcessPaymentInput, apply_outcome}
use payment_service.Usecase.Process
use payment_service.Usecase.Order.{process_again}
use payment_service.Tests.Fixtures.{payment, format}
use payment_service.Tests.Tables.{gateway, input, settled, read, processor}

process_again_example :
    Process.execute format processor input "e" (pos 5) settled ≡ (err invalid_transition, settled)
unfolding mock_gateway Mock.authorize simulate_latency
process_again_example =
    process_again format processor gateway input "e" (pos 5) settled settled settled
      (payment completed 0) (record { outcome = approved; provider_id = "psp_u"; reason = "" }) refl
      read refl (λ p. cc p)
