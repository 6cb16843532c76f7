-- ===== src/Tests/Payments.antt =====
-- The payment aggregate at concrete payments.
use payment_service.Base.{◌≡◌, List, [], ◌∷◌, ok}
use payment_service.Base.Int.{pos, ◌+ℤ◌}
use payment_service.Payment.{completed, partially_refunded, refunded, refund}
use payment_service.Payment.Balance.{refund_cases, refund-refund, RefundCases}
use payment_service.Payment.Lifecycle.{
  Call, completes, refunds, apply, Transition, apply-IsValid, apply-Transition, run, Accounted,
  run-Accounted,
}
use payment_service.Tests.Fixtures.{payment, completed-IsValid, refund_part, refund_rest}

refund-refund_example :
    refund (pos 3000 +ℤ pos 7000) (payment completed 0) ≡ ok (payment refunded 10000)
refund-refund_example =
    refund-refund (pos 3000) (pos 7000) (payment completed 0) {q = payment partially_refunded 3000}
      completed-IsValid refund_part refund_rest

apply-Transition_example : Transition completed partially_refunded
unfolding apply
apply-Transition_example =
    apply-Transition (refunds (pos 3000)) (payment completed 0)
      {q = payment partially_refunded 3000} refund_part

refund_cases_example : RefundCases (pos 8000) (payment partially_refunded 3000)
unfolding apply
refund_cases_example =
    refund_cases (pos 8000) (payment partially_refunded 3000)
      (apply-IsValid (refunds (pos 3000)) (payment completed 0) completed-IsValid refund_part)

abbrev two_refunds : List Call
two_refunds = refunds (pos 3000) ∷ completes ∷ refunds (pos 8000) ∷ refunds (pos 7000) ∷ []

run-Accounted_example :
    Accounted (payment completed 0, pos 0) (run two_refunds (payment completed 0, pos 0))
run-Accounted_example = run-Accounted two_refunds (payment completed 0) (pos 0) completed-IsValid
