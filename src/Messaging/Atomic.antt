-- ===== src/Messaging/Atomic.antt =====
-- The payment consumer (handle of internal/infrastructure/messaging/rabbitmq/consumer.go) with
-- ProcessPayment behind it: what its retries leave in the tables.
use mathlib.Core.Path.{subst}
use payment_service.Base.{
  ℕ, ◌≡◌, refl, ◌∙◌, ◌⊎◌, inl, inr, Bool, String, some, M, Result, ok, err, Error, value, ◌>>=◌,
  pure, after_call,
}
use payment_service.Base.Int.{pos}
use payment_service.Payment.{Time}
use payment_service.Json.{Body, TimeParser}
use payment_service.Messaging.{
  handle_payment, handle_decoded, handle_message, unmarshal_created, PaymentCreatedEvent, input_of,
  ack, dead_letter, Verdict,
}
use payment_service.Messaging.Retry.{Calls, last, again}
use payment_service.Messaging.Handle.{handle_message_lem}
use payment_service.Usecase.Ports.{PaymentRepository, Gateway, TxManager}
use payment_service.Usecase.Events.{TimeFormat}
use payment_service.Usecase.Laws.{Tables, RepositoryLaws, OutboxLaws, TxLaws, GatewayLaws, Outcome}
use payment_service.Usecase.Process.{ProcessPaymentInput, ProcessPaymentOutput}
use payment_service.Usecase.Process
use payment_service.Usecase.Atomic.Started.{Processed, process-Outcome}
use payment_service.Outbox.{Repository}

module _ {W : Type 0} (view : W → Tables) where
  outcome_cases :
      (t : Tables) (Q : Unit {0} → Tables → Type 0) (x : Result (Unit {0}) × W)
      → Outcome view t Q x
      → ((x.0 ≡ ok tt) × Q tt (view x.1)) ⊎ ((e : Error) × (x.0 ≡ err e) × (view x.1 ≡ t))
  outcome_cases t Q (ok _, w) h = inl (refl, h)
  outcome_cases t Q (err e, w) h = inr (e, refl, h)

  forgotten :
      {A : Type 0} (t : Tables) (Q : A → Tables → Type 0) (x : Result A × W)
      → Outcome view t Q x
      → Outcome view t (λ _ u. (a : A) × Q a u) (after_call x λ _. pure tt)
  forgotten t Q (ok a, w) h = (a, h)
  forgotten t Q (err e, w) h = h

  module _ (fn : M W (Unit {0})) (Done : W → Tables → Type 0)
      (step : (w : W) → Outcome view (view w) (λ _ u. Done w u) (fn w)) where
    -- Of calls in a row, the last alone changed the tables, if it succeeded.
    Calls-Done :
        (n : ℕ) (w w' : W) (r : Result (Unit {0}))
        → Calls fn n w r w'
        → ((r ≡ ok tt) × ((v : W) × (view v ≡ view w) × Done v (view w')))
          ⊎ ((e : Error) × (r ≡ err e) × (view w' ≡ view w))
    Calls-Done n w w' r (last made) =
        elim (outcome_cases (view w) (λ _ u. Done w u) (r, w')
          (subst (Outcome view (view w) (λ _ u. Done w u)) made (step w))) [
            | inl (good, done) ↦ inl (good, (w, refl, done))
            | inr bad ↦ inr bad
          ]
    Calls-Done n w w'' r (again {w' = w'} e made calls) =
        let same = subst (Outcome view (view w) (λ _ u. Done w u)) made (step w) in
        elim (Calls-Done _ w' w'' r calls) [
          | inl (good, (v, there, done)) ↦ inl (good, (v, there ∙ same, done))
          | inr (e, bad, there) ↦ inr (e, bad, there ∙ same)
        ]

module _ {W : Type 0} (view : W → Tables) (repo : PaymentRepository W) (outbox : Repository W)
    (tx : TxManager W) (R : RepositoryLaws view repo) (O : OutboxLaws view outbox)
    (T : TxLaws view tx) (gateway : Gateway W) (G : GatewayLaws view gateway)
    (draw : W → (String × Time) × W) (D : (w : W) → view (draw w).1 ≡ view w)
    (format : TimeFormat) where
  -- ProcessPayment, whose event gets an id and a time when it runs.
  abbrev pub processing : ProcessPaymentInput → M W ProcessPaymentOutput
  processing input = do
    new ← value draw
    Process.execute format
        (record { repo = repo; gateway = some gateway; outbox = some outbox; tx = some tx }) input
        new.0 new.1

  -- A run that began in the world `w` processed the payment and left the tables `u`.
  abbrev pub ProcessedFrom : ProcessPaymentInput → W → Tables → Type 0
  ProcessedFrom input w u =
      (r : ProcessPaymentOutput) × Processed view repo outbox tx R O T gateway G format input
        (draw w).0.0 (draw w).0.1 (draw w).1 r u

  processing-Outcome :
      (input : ProcessPaymentInput) (w : W)
      → Outcome view
          (view w)
          (λ _ u. ProcessedFrom input w u)
          ((processing input >>= λ _. pure tt) w)
  processing-Outcome input w =
      let w1 = (draw w).1 in
      subst
        (λ t.
          Outcome view t (λ _ u. ProcessedFrom input w u) ((processing input >>= λ _. pure tt) w))
        (D w)
        (forgotten view (view w1)
          (Processed view repo outbox tx R O T gateway G format input (draw w).0.0 (draw w).0.1 w1)
          (processing input w)
          (process-Outcome view repo outbox tx R O T gateway G format input (draw w).0.0
            (draw w).0.1 w1))

  -- What became of a message with that content.
  abbrev pub Handled : W → Result PaymentCreatedEvent → Verdict × W → Type 0
  Handled w decoded (ack, w') =
      (event : PaymentCreatedEvent) × (decoded ≡ ok event)
      × ((v : W) × (view v ≡ view w) × ProcessedFrom (input_of event) v (view w'))
  Handled w decoded (dead_letter, w') = view w' ≡ view w

  handled :
      (w : W) (decoded : Result PaymentCreatedEvent) (event : PaymentCreatedEvent)
      (r : Result (Unit {0})) (out : Verdict × W)
      → decoded ≡ ok event
      → ((r ≡ ok tt)
          × ((v : W) × (view v ≡ view w) × ProcessedFrom (input_of event) v (view out.1)))
        ⊎ ((e : Error) × (r ≡ err e) × (view out.1 ≡ view w))
      → ((r ≡ ok tt) × (out.0 ≡ ack)) ⊎ ((e : Error) × (r ≡ err e) × (out.0 ≡ dead_letter))
      → Handled w decoded out
  handled w decoded event r (ack, w') read (inl (good, done)) verdict = (event, read, done)
  handled w decoded event r (dead_letter, w') read (inl (good, done)) (inl (_, v)) = cc v
  handled w decoded event r (dead_letter, w') read (inl (good, done)) (inr (e, bad, v)) =
      cc (good, bad)
  handled w decoded event r (ack, w') read (inr (e, bad, same)) (inl (good, v)) = cc (good, bad)
  handled w decoded event r (ack, w') read (inr (e, bad, same)) (inr (e', bad', v)) = cc v
  handled w decoded event r (dead_letter, w') read (inr (e, bad, same)) verdict = same

  decoded-Handled :
      (cancelled : ℕ → Bool) (n : ℕ) (w : W) (decoded : Result PaymentCreatedEvent)
      → Handled w decoded (handle_decoded cancelled (pos n) processing decoded w)
  decoded-Handled cancelled n w (err e) = refl
  decoded-Handled cancelled n w (ok event) =
      let handler = processing (input_of event) >>= λ _. pure tt in
      let (calls, r, made, _, _, verdict) = handle_message_lem cancelled n handler w in
      let out = handle_message cancelled (pos n) handler w in
      handled w (ok event) event r out refl
        (Calls-Done view handler (λ v u. ProcessedFrom (input_of event) v u)
          (processing-Outcome (input_of event)) calls w out.1 r made)
        verdict

  -- The payment consumer with n retries and ProcessPayment behind it, over ports that keep their
  -- documented laws and whatever its content and the cancellations: if it acknowledges a message,
  -- the message was decoded, and one run, which began at the tables as they were before the
  -- message, processed its payment, so that the tables gained the payment after the provider's
  -- answer and one event, together; if it sends the message to the dead letter queue, the tables
  -- are as before.
  pub handle_payment-Handled :
      (cancelled : ℕ → Bool) (n : ℕ) (parse : TimeParser) (body : Body) (w : W)
      → Handled w
          (unmarshal_created parse body)
          (handle_payment cancelled (pos n) parse processing body w)
  unfolding handle_payment
  handle_payment-Handled cancelled n parse body w =
      decoded-Handled cancelled n w (unmarshal_created parse body)
