-- ===== src/Messaging/Retry.antt =====
-- The retry loop of internal/infrastructure/messaging/rabbitmq/dlq.go.
use payment_service.Base.{
  ℕ, zero, suc, ◌+◌, ◌≤◌, ◌≡◌, refl, ap, Bool, true, Bool-cases, ◌⊎◌, inl, inr, M, Result, ok, err,
  Error, arith, Result-cases,
}
use payment_service.Base.Int.{pos, negsuc}
use payment_service.Messaging.{process_with_retry, retry_from}

module _ {W : Type 0} (fn : M W (Unit {0})) where
  -- `n` calls in a row, from one world to the other, of which the last gave the result.
  pub data Calls : ℕ → W → Result (Unit {0}) → W → Type 0 where
    last : {w w' : W} {r : Result (Unit {0})} → fn w ≡ (r, w') → Calls 1 w r w'
    again :
        {n : ℕ} {w w' w'' : W} {r : Result (Unit {0})} (e : Error)
        → fn w ≡ (err e, w')
        → Calls n w' r w''
        → Calls (suc n) w r w''

  -- The calls of a run: at most so many, all of which failed but the last; and all of them are made
  -- if the last failed too and the context was not done in between.
  abbrev pub Tried : (ℕ → Bool) → ℕ → W → Result (Unit {0}) × W → Type 0
  Tried cancelled most w out =
      (n : ℕ) × Calls n w out.0 out.1
      × (n ≤ most)
      × ((out.0 ≡ ok tt) ⊎ (n ≡ most) ⊎ ((k : ℕ) × (cancelled k ≡ true)))

  why_later :
      {r : Result (Unit {0})} {n most : ℕ} {C : Type 0}
      → (r ≡ ok tt) ⊎ (n ≡ most) ⊎ C
      → (r ≡ ok tt) ⊎ (suc n ≡ suc most) ⊎ C
  why_later (inl good) = inl good
  why_later (inr (inl all)) = inr (inl (ap suc all))
  why_later (inr (inr c)) = inr (inr c)

  retry_from-Tried :
      (cancelled : ℕ → Bool) (left attempt : ℕ) (w : W)
      → Tried cancelled (suc left) w (retry_from cancelled fn (suc left) attempt w)
  unfolding retry_from
  retry_from-Tried cancelled zero attempt w = elim (Result-cases (fn w).0) [
    | inl (e, bad) ↦
        rw (bad, retry_from) (1, last (λ i. (bad i, (fn w).1)), omega arith, inr (inl refl))
    | inr (_, good) ↦
        rw (good, retry_from) (1, last (λ i. (good i, (fn w).1)), omega arith, inl refl)
  ]
  retry_from-Tried cancelled (suc left) attempt w = elim (Result-cases (fn w).0) [
    | inl (e, bad) ↦
        let once : fn w ≡ (err e, (fn w).1) = λ i. (bad i, (fn w).1) in
        elim (Bool-cases (cancelled attempt)) [
          | inl done ↦
              rw (bad, retry_from, done) (1, last once, omega arith, inr (inr (attempt, done)))
          | inr goes ↦
              let (n, calls, few, why) = retry_from-Tried cancelled left (attempt + 1) (fn w).1 in
              rw (bad, retry_from, goes) (suc n, again e once calls, omega arith, why_later why)
        ]
    | inr (_, good) ↦
        rw (good, retry_from) (1, last (λ i. (good i, (fn w).1)), omega arith, inl refl)
  ]

  -- With n retries the loop makes at most n + 1 calls, one after another, stops at the first
  -- success, and answers with the result of the last; if that is an error, either all n + 1 calls
  -- failed or the context was done in a delay.
  pub process_with_retry-Tried :
      (cancelled : ℕ → Bool) (n : ℕ) (w : W)
      → Tried cancelled (suc n) w (process_with_retry cancelled fn (pos n) w)
  unfolding process_with_retry
  process_with_retry-Tried cancelled n w = retry_from-Tried cancelled n 0 w

  -- With a negative number of retries nothing is called, and the answer is a success.
  pub process_with_retry_negative :
      (cancelled : ℕ → Bool) (n : ℕ) (w : W)
      → process_with_retry cancelled fn (negsuc n) w ≡ (ok tt, w)
  unfolding process_with_retry
  process_with_retry_negative cancelled n w = refl
