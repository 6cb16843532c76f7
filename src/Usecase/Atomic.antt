-- ===== src/Usecase/Atomic.antt =====
-- The Outbox Pattern of the use cases (internal/application/usecase): the lines in which a payment and
-- its event are written.
pub mod Changes
pub mod Started
pub mod Settled
use payment_service.Base.{
  ◌≡◌, refl, sym, ap, ◌∙◌, inl, inr, none, some, M, Result, ok, err, ◌>>◌, after_call, pure, String,
}
use mathlib.Core.Path.{subst}
use payment_service.Payment.{Payment, Time}
use payment_service.Outbox.{Event, Repository}
use payment_service.Usecase.Ports.{TxManager, within_tx}
use payment_service.Usecase.Events.{TimeFormat, build_payment_event}
use payment_service.Usecase.Laws.{
  Tables, store_payment, store_event, OutboxLaws, TxLaws, Outcome, Outcome-return,
}

-- `event` tells of the payment `q`, and the tables hold both, over those before.
abbrev pub Committed : TimeFormat → Payment → String → String → Time → Tables → Tables → Type 0
Committed format q type event_id event_at t u =
    (event : Event) × (build_payment_event format q type event_id event_at ≡ ok event)
    × (u ≡ store_event event (store_payment q t))

module _ {W : Type 0} (view : W → Tables) (outbox : Repository W) (tx : TxManager W)
    (O : OutboxLaws view outbox) (T : TxLaws view tx) where
  both-stored :
      (x : Result (Unit {0}) × W) (event : Event) (u : Tables)
      → event.published_at ≡ none
      → (x.0 ≡ ok tt → view x.1 ≡ u)
      → (after_call x (λ _. outbox.add event)).0 ≡ ok tt
      → view (after_call x (λ _. outbox.add event)).1 ≡ store_event event u
  both-stored (ok _, w) event u new stored e =
      O.add-stores event w new e ∙ ap (store_event event) (stored refl)
  both-stored (err _, w) event u new stored e = cc e

  -- The last lines of each use case.
  pub commit-Outcome :
      {B : Type 0} (Q : B → Tables → Type 0) (b : B) (write : M W (Unit {0})) (q : Payment)
      (built : Result Event) (w : W) (t : Tables)
      → view w ≡ t
      → ((event : Event) → built ≡ ok event → event.published_at ≡ none)
      → ((v : W) → view v ≡ t → (write v).0 ≡ ok tt → view (write v).1 ≡ store_payment q t)
      → ((event : Event) → built ≡ ok event → Q b (store_event event (store_payment q t)))
      → Outcome view t Q
          (after_call (built, w) λ event. within_tx (some tx) (write >> outbox.add event) >> pure b)
  unfolding within_tx
  commit-Outcome Q b write q (err e) w t same new stored k = same
  commit-Outcome Q b write q (ok event) w t same new stored k =
      Outcome-return view t Q b (tx (write >> outbox.add event) w)
        (elim (T (write >> outbox.add event) w) [
          | inl (e, failed, kept) ↦ inl (e, failed, kept ∙ same)
          | inr (done, (begun, began, body, left)) ↦
              let now =
                λ (written : (write begun).0 ≡ ok tt). stored begun (began ∙ same) written in
              inr (
                done,
                subst (Q b)
                    (sym (
                      left
                      ∙ both-stored (write begun) event (store_payment q t) (new event refl) now
                          body))
                    (k event refl),
              )
        ])
