-- ===== src/Webhook/Attempt.antt =====
-- The outcome of one attempt to deliver: the policy and applyAttemptOutcome of
-- internal/application/webhook/retry.go. Durations are int64 nanoseconds.
use payment_service.Base.{Bool, ◌&&◌, String, ◌<>◌, Result, ok, err, message, if◌then◌else◌}
use payment_service.Base.Int.{ℤ, pos, pos_part, leb_ℤ, ltb_ℤ, ◌+ℤ◌, add64, sub64, shl64}
use payment_service.Base.Text.{decimal}
use payment_service.Payment.{Time}
use payment_service.Webhook.{Delivery, mark_delivered, mark_for_retry, mark_exhausted}

pub record BackoffPolicy : Type 0 where
  pub max_attempts : ℤ
  pub base_delay : ℤ

-- nextDelay
unfoldable pub next_delay : BackoffPolicy → ℤ → ℤ
next_delay policy attempt =
    let counted = if ltb_ℤ attempt (pos 1) then pos 1 else attempt in
    shl64 policy.base_delay (pos_part (sub64 counted (pos 1)))

-- exhausted
unfoldable pub exhausted : BackoffPolicy → ℤ → Bool
exhausted policy attempt = leb_ℤ policy.max_attempts attempt

-- What Sender.Send returns: a status code or an error.
abbrev pub Attempt : Type 0
Attempt = Result ℤ

abbrev is_success : Attempt → Bool
is_success (ok status) = leb_ℤ (pos 200) status && ltb_ℤ status (pos 300)
is_success (err e) = Bool.false

-- deliveryFailureReason
unfoldable pub delivery_failure_reason : Attempt → String
delivery_failure_reason (err e) = message e
delivery_failure_reason (ok status) = "unexpected status code: " <> decimal status

-- applyAttemptOutcome, at the time `now`; the entry is stamped with the time `at`.
unfoldable pub apply_attempt_outcome : BackoffPolicy → Attempt → Time → Time → Delivery → Delivery
unfolding exhausted mark_delivered mark_exhausted mark_for_retry
apply_attempt_outcome policy attempt now at d =
    if is_success attempt
    then mark_delivered at d
    else if exhausted policy (add64 d.attempts (pos 1))
    then mark_exhausted (delivery_failure_reason attempt) at d
    else mark_for_retry (delivery_failure_reason attempt)
        (now +ℤ next_delay policy (add64 d.attempts (pos 1))) at d
