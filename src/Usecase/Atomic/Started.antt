-- ===== src/Usecase/Atomic/Started.antt =====
-- CreatePayment and ProcessPayment: what a run did to the tables.
use payment_service.Base.{◌≡◌, refl, ap, ◌∙◌, some, ok, String}
use payment_service.Base.Dict.{lookup}
use payment_service.Payment.{Payment, Time, new_with_options, status_text}
use payment_service.Outbox.{Repository}
use payment_service.Usecase.Ports.{
  PaymentRepository, Gateway, TxManager, AuthorizationResult, add_event,
}
use payment_service.Usecase.Events.{
  TimeFormat, event_payment_created, PaymentResponse, to_payment_response,
}
use payment_service.Usecase.Laws.{
  Tables, RepositoryLaws, OutboxLaws, TxLaws, GatewayLaws, Outcome, Outcome-step, update-stored,
  store_payment,
}
use payment_service.Usecase.Atomic.{Committed, commit-Outcome}
use payment_service.Usecase.Atomic.Changes.{
  created-IsKnown, apply_outcome-Update, build_payment_event-unpublished,
}
use payment_service.Usecase.Create.{CreatePaymentRequest, Fresh, chosen_installments, chosen_method}
use payment_service.Usecase.Create
use payment_service.Usecase.Process.{
  ProcessPaymentInput, ProcessPaymentOutput, apply_outcome, authorize,
}
use payment_service.Usecase.Process

module _ {W : Type 0} (view : W → Tables) (repo : PaymentRepository W) (outbox : Repository W)
    (tx : TxManager W) (R : RepositoryLaws view repo) (O : OutboxLaws view outbox)
    (T : TxLaws view tx) where
  -- CreatePayment: the tables gain the new payment and its event.
  abbrev pub Created :
      TimeFormat → CreatePaymentRequest → Fresh → Tables → PaymentResponse → Tables → Type 0
  Created format req new t r u =
      (p : Payment) × (new_with_options req.amount req.currency (chosen_installments req)
          (chosen_method req) new.payment_id new.created_at
        ≡ ok p)
      × (r ≡ to_payment_response p)
      × Committed format p event_payment_created new.event_id new.event_at t u

  -- A run of CreatePayment, over ports that keep their documented laws, fails and leaves the
  -- payments and the outbox as they were; or it succeeds, and then NewWithOptions made a payment
  -- of the request with its defaults filled in, the response shows it, and the tables gained,
  -- together, that payment and one payment.created event built from it.
  pub create-Outcome :
      (format : TimeFormat) (req : CreatePaymentRequest) (new : Fresh) (w : W)
      → Outcome view
          (view w)
          (Created format req new (view w))
          (Create.execute format (record { repo = repo; outbox = outbox; tx = some tx }) req new w)
  unfolding Create.execute
  create-Outcome format req new w =
      let Q = Created format req new (view w) in
      Outcome-step view (view w) Q
        (
          new_with_options req.amount req.currency (chosen_installments req) (chosen_method req)
              new.payment_id new.created_at,
          w,
        )
        _ refl
        λ p w' made same.
          commit-Outcome view outbox tx O T Q (to_payment_response p) (repo.save p) p _ w' (view w)
            same
            (λ event built.
              build_payment_event-unpublished format p event_payment_created new.event_id
                new.event_at built)
            (λ v same_v done.
              R.save-stores p v
                (created-IsKnown req.amount req.currency (chosen_installments req)
                  (chosen_method req) new.payment_id new.created_at (ap (λ x. x.0) made))
                done
              ∙ ap (store_payment p) same_v)
            λ event built. (p, ap (λ x. x.0) made, refl, (event, built, refl))

  module _ (gateway : Gateway W) (G : GatewayLaws view gateway) where
    -- ProcessPayment: the provider answered, the payment took the answer's transition, and the
    -- tables hold it and the event of that transition.
    abbrev pub Processed :
        TimeFormat
        → ProcessPaymentInput
        → String
        → Time
        → W
        → ProcessPaymentOutput
        → Tables
        → Type 0
    Processed format input event_id event_at w r u =
        (p : Payment) × (result : AuthorizationResult) × (q : Payment) × (type : String) × (lookup
            input.payment_id (view w).payments
          ≡ some p)
        × ((gateway.authorize p (repo.find_by_id input.payment_id w).1).0 ≡ ok result)
        × (apply_outcome p result ≡ ok (q, type))
        × (r ≡ record { payment_id = q.id; status = status_text q.status })
        × Committed format q type event_id event_at (view w) u

    -- A run of ProcessPayment, over ports that keep their documented laws, fails and leaves the
    -- payments and the outbox as they were; or it succeeds, and then the provider answered for the
    -- payment that was read, the payment took the transition of that answer, and the tables
    -- gained, together, the payment after it and the one event of that transition.
    pub process-Outcome :
        (format : TimeFormat) (input : ProcessPaymentInput) (event_id : String) (event_at : Time)
        (w : W)
        → Outcome view (view w) (Processed format input event_id event_at w) (
            Process.execute format
              (record { repo = repo; gateway = some gateway; outbox = some outbox; tx = some tx })
              input
              event_id
              event_at
              w)
    unfolding Process.execute add_event authorize
    process-Outcome format input event_id event_at w =
        let t = view w in
        let Q = Processed format input event_id event_at w in
        Outcome-step view t Q (repo.find_by_id input.payment_id w) _
          (R.find-keeps input.payment_id w)
          λ p w1 found same1.
            Outcome-step view t Q (gateway.authorize p w1) _ (G.authorize-keeps p w1 ∙ same1)
              λ result w2 answered same2.
                Outcome-step view t Q (apply_outcome p result, w2) _ same2
                  λ (q, type) w3 moved same3.
                    commit-Outcome view outbox tx O T Q
                      (record { payment_id = q.id; status = status_text q.status }) (repo.update q)
                      q _ w3 t same3
                      (λ event built.
                        build_payment_event-unpublished format q type event_id event_at built)
                      (update-stored view repo R t input.payment_id p q
                        (R.find-found input.payment_id w p (ap (λ x. x.0) found))
                        (apply_outcome-Update p result (ap (λ x. x.0) moved)))
                      λ event built. (
                        p,
                        result,
                        q,
                        type,
                        R.find-found input.payment_id w p (ap (λ x. x.0) found),
                        ap (λ v. (gateway.authorize p v).0) (ap (λ x. x.1) found)
                            ∙ ap (λ x. x.0) answered,
                        ap (λ x. x.0) moved,
                        refl,
                        (event, built, refl),
                      )
