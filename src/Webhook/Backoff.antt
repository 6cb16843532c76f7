-- ===== src/Webhook/Backoff.antt =====
-- How attempts are counted and delayed (internal/application/webhook/retry.go).
use payment_service.Base.{ℕ, suc, ◌-◌, ◌^◌, ◌<◌, ◌≡◌, ◌⊎◌, ok, err, arith, if◌then◌else◌}
use payment_service.Base.Int.{
  ℤ, pos, ◌≤ℤ◌, ◌<ℤ◌, ◌+ℤ◌, ◌*ℤ◌, ◌-ℤ◌, ltb_ℤ, InInt64, add64, sub64, shl64, wrap64, wrap64_id,
}
use payment_service.Payment.{Time}
use payment_service.Webhook.{Delivery, delivered, failed, exhausted, zero_time}
use payment_service.Webhook.Attempt.{
  BackoffPolicy, Attempt, next_delay, apply_attempt_outcome, delivery_failure_reason,
}

-- A status code from 200 to 299, and no error.
abbrev pub Succeeds : Attempt → Type 0
Succeeds (ok status) = (pos 200 ≤ℤ status) × (status <ℤ pos 300)
Succeeds (err e) = ⊥

-- An attempt more, in the range where the counter does not wrap.
pub add64_one : (a : ℤ) → pos 0 ≤ℤ a → a <ℤ pos (2 ^ 63 - 1) → add64 a (pos 1) ≡ a +ℤ pos 1
unfolding add64 wrap64 ◌+ℤ◌
add64_one a h k = ground arith

-- An attempt adds one to the counter of a delivery; on a status from 200 to 299 it is delivered;
-- on any other status or an error it is given up if the counter reached the maximum, and otherwise
-- failed, due after the delay of that attempt; a failure leaves its reason, and only a planned
-- delivery has a next time.
pub apply_attempt_outcome_cases :
    (policy : BackoffPolicy) (attempt : Attempt) (now at : Time) (d : Delivery)
    → let d' = apply_attempt_outcome policy attempt now at d in
      (d'.attempts ≡ add64 d.attempts (pos 1))
      × ((Succeeds attempt
            × (d'.status ≡ delivered)
            × (d'.last_error ≡ "")
            × (d'.next_attempt_at ≡ zero_time))
          ⊎ (¬ Succeeds attempt
              × (policy.max_attempts ≤ℤ d'.attempts)
              × (d'.status ≡ exhausted)
              × (d'.last_error ≡ delivery_failure_reason attempt)
              × (d'.next_attempt_at ≡ zero_time))
          ⊎ (¬ Succeeds attempt
              × (d'.attempts <ℤ policy.max_attempts)
              × (d'.status ≡ failed)
              × (d'.last_error ≡ delivery_failure_reason attempt)
              × (d'.next_attempt_at ≡ now +ℤ next_delay policy d'.attempts)))
unfolding apply_attempt_outcome
apply_attempt_outcome_cases policy (ok status) now at d = ground arith
apply_attempt_outcome_cases policy (err e) now at d = ground arith

sub64_one : (k : ℕ) → suc k < 2 ^ 63 → sub64 (pos (suc k)) (pos 1) ≡ pos k
unfolding sub64 wrap64 ◌-ℤ◌
sub64_one k h = ground arith

counted_suc : (k : ℕ) → (if ltb_ℤ (pos (suc k)) (pos 1) then pos 1 else pos (suc k)) ≡ pos (suc k)
counted_suc k = ground arith

-- While it and the number of the attempt are int64 values, the delay after attempt k + 1 is the
-- base delay times 2 ^ k.
pub next_delay-eq :
    (policy : BackoffPolicy) (k : ℕ)
    → suc k < 2 ^ 63
    → InInt64 (policy.base_delay *ℤ pos (2 ^ k))
    → next_delay policy (pos (suc k)) ≡ policy.base_delay *ℤ pos (2 ^ k)
unfolding next_delay shl64
next_delay-eq policy k h fits =
    rw (counted_suc k, sub64_one k h) (wrap64_id (policy.base_delay *ℤ pos (2 ^ k)) fits)
