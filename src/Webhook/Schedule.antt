-- ===== src/Webhook/Schedule.antt =====
-- The whole life of a delivery: attempts follow one another while it is pending or failed, as
-- DispatchWebhook makes the first and RetryDeliveries the later ones.
use mathlib.Core.Path.{subst}
use payment_service.Base.{
  ℕ, suc, ◌+◌, ◌-◌, ◌^◌, ◌≤◌, ◌<◌, ◌≡◌, refl, ◌⊎◌, inl, inr, Bool, true, false, Bool-cases, List,
  [], ◌∷◌, length, All, if◌then◌else◌, arith,
}
use payment_service.Base.Int.{pos, ◌+ℤ◌, add64}
use payment_service.Payment.{Time}
use payment_service.Webhook.{Delivery, DeliveryStatus, pending, delivered, failed, exhausted}
use payment_service.Webhook.Attempt.{BackoffPolicy, Attempt, apply_attempt_outcome}
use payment_service.Webhook.Backoff.{Succeeds, apply_attempt_outcome_cases, add64_one}

-- An attempt with the times that the code reads around it.
pub record Try : Type 0 where
  pub attempt : Attempt
  pub now : Time
  pub at : Time

abbrev pub is_open : DeliveryStatus → Bool
is_open pending = true
is_open failed = true
is_open delivered = false
is_open exhausted = false

-- The entry after the tries that it takes, and how many of them it takes.
pub run : BackoffPolicy → List Try → Delivery × ℕ → Delivery × ℕ
run policy [] s = s
run policy (t ∷ tries) (d, n) = run policy tries (
    if is_open d.status
    then (apply_attempt_outcome policy t.attempt t.now t.at d, suc n)
    else (d, n))

-- `n` attempts were made for the entry, in a schedule of at most `most`.
abbrev Counted : DeliveryStatus → ℕ → ℕ → Type 0
Counted pending n most = n ≡ 0
Counted failed n most = n < most
Counted exhausted n most = n ≡ most
Counted delivered n most = (1 ≤ n) × (n ≤ most)

pub record OnSchedule (most : ℕ) (s : Delivery × ℕ) : Type 0 where
  pub tallied : s.0.attempts ≡ pos s.1
  pub counted : Counted s.0.status s.1 most

module _ (policy : BackoffPolicy) (most : ℕ) (few : most < 2 ^ 63 - 1) (positive : 1 ≤ most)
    (limit : policy.max_attempts ≡ pos most) where
  Counted-before : (s : DeliveryStatus) (n : ℕ) → is_open s ≡ true → Counted s n most → n < most
  Counted-before pending n o c = omega arith
  Counted-before failed n o c = c
  Counted-before delivered n o c = cc o
  Counted-before exhausted n o c = cc o

  tally :
      (d : Delivery) (n : ℕ)
      → n < most
      → d.attempts ≡ pos n
      → add64 d.attempts (pos 1) ≡ pos (suc n)
  unfolding ◌+ℤ◌
  tally d n h e = ground (arith, add64_one (pos n))

  step-OnSchedule :
      (t : Try) (d : Delivery) (n : ℕ)
      → is_open d.status ≡ true
      → OnSchedule most (d, n)
      → OnSchedule most (apply_attempt_outcome policy t.attempt t.now t.at d, suc n)
  step-OnSchedule t d n o v =
      let before = Counted-before d.status n o v.counted in
      ground (
        arith,
        before,
        tally d n before v.tallied,
        apply_attempt_outcome_cases policy t.attempt t.now t.at d,
      )

  -- With a maximum of from 1 to 2 ^ 63 - 2 attempts, whatever the attempts of a delivery that is
  -- on schedule result in: its counter tells how many were made, they are never more than the
  -- maximum, it is given up exactly at the maximum, and it stays failed only below it.
  pub run-OnSchedule :
      (tries : List Try) (d : Delivery) (n : ℕ)
      → OnSchedule most (d, n)
      → OnSchedule most (run policy tries (d, n))
  unfolding run
  run-OnSchedule [] d n v = v
  run-OnSchedule (t ∷ tries) d n v = elim (Bool-cases (is_open d.status)) [
    | inl o ↦
        rw (o, run)
          (run-OnSchedule tries (apply_attempt_outcome policy t.attempt t.now t.at d) (suc n)
            (step-OnSchedule t d n o v))
    | inr shut ↦ rw (shut, run) (run-OnSchedule tries d n v)
  ]

  abbrev pub Fails : Try → Type 0
  Fails t = ¬ Succeeds t.attempt

  run_shut :
      (tries : List Try) (d : Delivery) (n : ℕ)
      → is_open d.status ≡ false
      → run policy tries (d, n) ≡ (d, n)
  unfolding run
  run_shut [] d n shut = refl
  run_shut (t ∷ tries) d n shut = rw (shut, run) (run_shut tries d n shut)

  -- An attempt that fails leaves the entry failed, or gives it up.
  fail_cases :
      (t : Try) (d : Delivery)
      → Fails t
      → let d' = apply_attempt_outcome policy t.attempt t.now t.at d in
        (d'.status ≡ failed) ⊎ (d'.status ≡ exhausted)
  fail_cases t d bad = ground (arith, apply_attempt_outcome_cases policy t.attempt t.now t.at d)

  -- With a maximum of from 1 to 2 ^ 63 - 2 attempts, an open delivery on schedule whose attempts
  -- all fail, and are enough, is given up after exactly the maximum of attempts.
  pub run_exhausts :
      (tries : List Try) (d : Delivery) (n : ℕ)
      → OnSchedule most (d, n)
      → is_open d.status ≡ true
      → All Fails tries
      → most ≤ n + length tries
      → ((run policy tries (d, n)).0.status ≡ exhausted) × ((run policy tries (d, n)).1 ≡ most)
  unfolding run
  run_exhausts [] d n v o bad enough = absurd (omega (arith, Counted-before d.status n o v.counted))
  run_exhausts (t ∷ tries) d n v o bad enough =
      let d' = apply_attempt_outcome policy t.attempt t.now t.at d in
      let v' = step-OnSchedule t d n o v in
      elim (fail_cases t d bad.0) [
        | inl again ↦ rw (o, run) (run_exhausts tries d' (suc n) v' (rw again) bad.1 (omega arith))
        | inr over ↦
            rw (o, run, run_shut tries d' (suc n) (rw over))
              (over, subst (λ s. Counted s (suc n) most) over v'.counted)
      ]
