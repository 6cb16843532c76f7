-- ===== src/Usecase/Atomic/Settled.antt =====
-- CapturePayment and RefundPayment: what a run did to the tables.
use payment_service.Base.{◌≡◌, refl, ap, ◌∙◌, some, ok, String}
use payment_service.Base.Dict.{lookup}
use payment_service.Payment.{Payment, Time}
use payment_service.Payment
use payment_service.Base.Int.{ℤ}
use payment_service.Outbox.{Repository}
use payment_service.Usecase.Ports.{PaymentRepository, Gateway, TxManager, add_event}
use payment_service.Usecase.Events.{
  TimeFormat, event_payment_completed, event_payment_refunded, PaymentResponse, to_payment_response,
}
use payment_service.Usecase.Laws.{
  Tables, RepositoryLaws, OutboxLaws, TxLaws, GatewayLaws, Outcome, Outcome-step, update-stored,
}
use payment_service.Usecase.Atomic.{Committed, commit-Outcome}
use payment_service.Usecase.Atomic.Changes.{apply-Update, build_payment_event-unpublished}
use payment_service.Payment.Lifecycle.{captures, refunds, apply}
use payment_service.Usecase.Capture
use payment_service.Usecase.Refund.{asked_amount}
use payment_service.Usecase.Refund

module _ {W : Type 0} (view : W → Tables) (repo : PaymentRepository W) (outbox : Repository W)
    (tx : TxManager W) (R : RepositoryLaws view repo) (O : OutboxLaws view outbox)
    (T : TxLaws view tx) where
  module _ (gateway : Gateway W) (G : GatewayLaws view gateway) where
    -- CapturePayment: the payment was authorized, the provider accepted, and the tables hold the
    -- captured payment and its event.
    abbrev pub Captured :
        TimeFormat → String → String → Time → W → PaymentResponse → Tables → Type 0
    Captured format payment_id event_id event_at w r u =
        (p : Payment) × (q : Payment) × (provider_id : String) × (lookup payment_id
            (view w).payments
          ≡ some p)
        × (Payment.capture p ≡ ok q)
        × ((gateway.capture q (repo.find_by_id payment_id w).1).0 ≡ ok provider_id)
        × (r ≡ to_payment_response q)
        × Committed format q event_payment_completed event_id event_at (view w) u

    -- A run of CapturePayment, over ports that keep their documented laws, fails and leaves the
    -- payments and the outbox as they were; or it succeeds, and then the payment that was read
    -- could be captured, the provider accepted its capture, and the tables gained, together, the
    -- captured payment and one payment.completed event built from it.
    pub capture-Outcome :
        (format : TimeFormat) (payment_id event_id : String) (event_at : Time) (w : W)
        → Outcome view (view w) (Captured format payment_id event_id event_at w) (
            Capture.execute format
              (record { repo = repo; gateway = gateway; outbox = some outbox; tx = some tx })
              payment_id
              event_id
              event_at
              w)
    unfolding Capture.execute add_event apply
    capture-Outcome format payment_id event_id event_at w =
        let t = view w in
        let Q = Captured format payment_id event_id event_at w in
        Outcome-step view t Q (repo.find_by_id payment_id w) _ (R.find-keeps payment_id w)
          λ p w1 found same1.
            Outcome-step view t Q (Payment.capture p, w1) _ same1
              λ q w2 moved same2.
                Outcome-step view t Q (gateway.capture q w2) _ (G.capture-keeps q w2 ∙ same2)
                  λ provider_id w3 taken same3.
                    commit-Outcome view outbox tx O T Q (to_payment_response q) (repo.update q) q _
                      w3 t same3
                      (λ event built.
                        build_payment_event-unpublished format q event_payment_completed event_id
                          event_at built)
                      (update-stored view repo R t payment_id p q
                        (R.find-found payment_id w p (ap (λ x. x.0) found))
                        (apply-Update captures p (ap (λ x. x.0) moved)))
                      λ event built. (
                        p,
                        q,
                        provider_id,
                        R.find-found payment_id w p (ap (λ x. x.0) found),
                        ap (λ x. x.0) moved,
                        ap (λ v. (gateway.capture q v).0)
                              (ap (λ x. x.1) found ∙ ap (λ x. x.1) moved)
                            ∙ ap (λ x. x.0) taken,
                        refl,
                        (event, built, refl),
                      )

    -- RefundPayment: the refund was allowed, the provider was asked for exactly that amount and
    -- accepted, and the tables hold the payment after it and its event.
    abbrev pub Refunded :
        TimeFormat → String → ℤ → String → Time → W → PaymentResponse → Tables → Type 0
    Refunded format payment_id amount event_id event_at w r u =
        (p : Payment) × (q : Payment) × (provider_id : String) × (lookup payment_id
            (view w).payments
          ≡ some p)
        × (Payment.refund (asked_amount amount p) p ≡ ok q)
        × ((gateway.refund q (asked_amount amount p) (repo.find_by_id payment_id w).1).0
            ≡ ok provider_id)
        × (r ≡ to_payment_response q)
        × Committed format q event_payment_refunded event_id event_at (view w) u

    -- A run of RefundPayment, over ports that keep their documented laws, fails and leaves the
    -- payments and the outbox as they were; or it succeeds, and then the payment that was read
    -- allowed the refund of the asked amount (all that is left, if none is given), the provider
    -- was asked for exactly that amount of it and accepted, and the tables gained, together, the
    -- payment after the refund and one payment.refunded event built from it.
    pub refund-Outcome :
        (format : TimeFormat) (payment_id : String) (amount : ℤ) (event_id : String)
        (event_at : Time) (w : W)
        → Outcome view (view w) (Refunded format payment_id amount event_id event_at w) (
            Refund.execute format
              (record { repo = repo; gateway = gateway; outbox = some outbox; tx = some tx })
              payment_id
              amount
              event_id
              event_at
              w)
    unfolding Refund.execute add_event apply
    refund-Outcome format payment_id amount event_id event_at w =
        let t = view w in
        let Q = Refunded format payment_id amount event_id event_at w in
        Outcome-step view t Q (repo.find_by_id payment_id w) _ (R.find-keeps payment_id w)
          λ p w1 found same1.
            let asked = asked_amount amount p in
            Outcome-step view t Q (Payment.refund asked p, w1) _ same1
              λ q w2 moved same2.
                Outcome-step view t Q (gateway.refund q asked w2) _
                  (G.refund-keeps q asked w2 ∙ same2)
                  λ provider_id w3 taken same3.
                    commit-Outcome view outbox tx O T Q (to_payment_response q) (repo.update q) q _
                      w3 t same3
                      (λ event built.
                        build_payment_event-unpublished format q event_payment_refunded event_id
                          event_at built)
                      (update-stored view repo R t payment_id p q
                        (R.find-found payment_id w p (ap (λ x. x.0) found))
                        (apply-Update (refunds asked) p (ap (λ x. x.0) moved)))
                      λ event built. (
                        p,
                        q,
                        provider_id,
                        R.find-found payment_id w p (ap (λ x. x.0) found),
                        ap (λ x. x.0) moved,
                        ap (λ v. (gateway.refund q asked v).0)
                              (ap (λ x. x.1) found ∙ ap (λ x. x.1) moved)
                            ∙ ap (λ x. x.0) taken,
                        refl,
                        (event, built, refl),
                      )
