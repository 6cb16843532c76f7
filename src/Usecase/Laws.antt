-- ===== src/Usecase/Laws.antt =====
-- What the use cases rely on: the documented behaviour of the ports, as laws about the part of the
-- world that they keep, which is a table of payments and an outbox table
-- (internal/infrastructure/persistence/postgres implements them by SQL statements and transactions).
use payment_service.Base.{
  ◌≡◌, refl, ap, ◌∙◌, ◌⊎◌, inl, inr, String, List, [], ◌∷◌, ◌++◌, none, some, true, M, Result, ok,
  err, Error, after_call,
}
use payment_service.Base.Int.{ℤ}
use payment_service.Base.Dict.{Dict, lookup, insert}
use payment_service.Payment.{Payment, status_is_valid, capture_method_is_valid}
use payment_service.Payment.Lifecycle.{SameOrder}
use payment_service.Outbox.{Event, Repository}
use payment_service.Usecase.Ports.{PaymentRepository, Gateway, TxManager}

pub record Tables : Type 0 where
  pub payments : Dict Payment
  pub events : List Event

abbrev pub store_payment : Payment → Tables → Tables
store_payment p t = record t { payments = insert p.id p t.payments }

abbrev pub store_event : Event → Tables → Tables
store_event e t = record t { events = t.events ++ (e ∷ []) }

-- A status and a capture method that a column of text gives back.
abbrev pub IsKnown : Payment → Type 0
IsKnown p = (status_is_valid p.status ≡ true) × (capture_method_is_valid p.capture_method ≡ true)

module _ {W : Type 0} (view : W → Tables) where
  -- FindByID reads, and a write that reports success has been made: a save of a payment whose status
  -- and capture method are known, and an update by a payment that changes a stored one in its status
  -- and its refunded amount. Of a failed write nothing is known.
  pub record RepositoryLaws (repo : PaymentRepository W) : Type 0 where
    pub find-keeps : (id : String) (w : W) → view (repo.find_by_id id w).1 ≡ view w
    pub find-found :
        (id : String) (w : W) (p : Payment)
        → (repo.find_by_id id w).0 ≡ ok p
        → lookup id (view w).payments ≡ some p
    pub save-stores :
        (p : Payment) (w : W)
        → IsKnown p
        → (repo.save p w).0 ≡ ok tt
        → view (repo.save p w).1 ≡ store_payment p (view w)
    pub update-stores :
        (id : String) (p q : Payment) (w : W)
        → lookup id (view w).payments ≡ some p
        → SameOrder p q
        → status_is_valid q.status ≡ true
        → (repo.update q w).0 ≡ ok tt
        → view (repo.update q w).1 ≡ store_payment q (view w)

  -- An event is added unpublished.
  pub record OutboxLaws (outbox : Repository W) : Type 0 where
    pub add-stores :
        (e : Event) (w : W)
        → e.published_at ≡ none
        → (outbox.add e w).0 ≡ ok tt
        → view (outbox.add e w).1 ≡ store_event e (view w)

  -- An update of what is stored, in a world whose tables are known.
  pub update-stored :
      (repo : PaymentRepository W) (R : RepositoryLaws repo) (t : Tables) (id : String)
      (p q : Payment)
      → lookup id t.payments ≡ some p
      → SameOrder p q × (status_is_valid q.status ≡ true)
      → (v : W) → view v ≡ t
      → (repo.update q v).0 ≡ ok tt
      → view (repo.update q v).1 ≡ store_payment q t
  update-stored repo R t id p q stored (order, known) v same done =
      R.update-stores id p q v (ap (λ u. lookup id u.payments) same ∙ stored) order known done
      ∙ ap (store_payment q) same

  -- A transaction that fails, in its body or at its commit, leaves the tables as they were. One that
  -- succeeds has the effect of its body, which ran on the same tables and succeeded.
  abbrev pub TxLaws : TxManager W → Type 0
  TxLaws tx =
      (fn : M W (Unit {0})) (w : W)
      → ((e : Error) × ((tx fn w).0 ≡ err e) × (view (tx fn w).1 ≡ view w))
        ⊎ (((tx fn w).0 ≡ ok tt)
            × ((begun : W) × (view begun ≡ view w)
                × ((fn begun).0 ≡ ok tt)
                × (view (tx fn w).1 ≡ view (fn begun).1)))

  -- The provider does not write our tables.
  pub record GatewayLaws (gateway : Gateway W) : Type 0 where
    pub authorize-keeps : (p : Payment) (w : W) → view (gateway.authorize p w).1 ≡ view w
    pub capture-keeps : (p : Payment) (w : W) → view (gateway.capture p w).1 ≡ view w
    pub refund-keeps : (p : Payment) (a : ℤ) (w : W) → view (gateway.refund p a w).1 ≡ view w

  -- A run that began at the tables `t`: it failed and they are as they were, or it returned a value
  -- which is in the relation `Q` with the tables that it left.
  abbrev pub Outcome : {A : Type 0} → Tables → (A → Tables → Type 0) → Result A × W → Type 0
  Outcome t Q (ok a, w) = Q a (view w)
  Outcome t Q (err e, w) = view w ≡ t

  -- A call that writes nothing, and what follows it.
  pub Outcome-step :
      {A B : Type 0} (t : Tables) (Q : B → Tables → Type 0) (x : Result A × W) (f : A → M W B)
      → view x.1 ≡ t
      → ((a : A) (w : W) → x ≡ (ok a, w) → view w ≡ t → Outcome t Q (f a w))
      → Outcome t Q (after_call x f)
  Outcome-step t Q (ok a, w) f same k = k a w refl same
  Outcome-step t Q (err e, w) f same k = same

  -- A transaction by its law, and the value that is returned after it.
  pub Outcome-return :
      {B : Type 0} (t : Tables) (Q : B → Tables → Type 0) (b : B) (x : Result (Unit {0}) × W)
      → ((e : Error) × (x.0 ≡ err e) × (view x.1 ≡ t)) ⊎ ((x.0 ≡ ok tt) × Q b (view x.1))
      → Outcome t Q (after_call x (λ _ w. (ok b, w)))
  Outcome-return t Q b (ok _, w) (inl (e, wrong, _)) = cc wrong
  Outcome-return t Q b (ok _, w) (inr (_, q)) = q
  Outcome-return t Q b (err _, w) (inl (_, _, same)) = same
  Outcome-return t Q b (err _, w) (inr (wrong, _)) = cc wrong
