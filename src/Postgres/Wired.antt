-- ===== src/Postgres/Wired.antt =====
-- RefundPayment wired as cmd wires it (internal/infrastructure/persistence/postgres): the payment repository
-- and the outbox over PostgreSQL, which run in the transaction that WithinTx puts in the context, or
-- on the pool.
use payment_service.Base.{
  ◌≡◌, refl, ap, sym, ◌∙◌, String, Option, none, some, M, Result, ok, err, true, after_call,
  add_text, ◌>>◌,
}
use payment_service.Base.Dict.{lookup}
use payment_service.Payment.{Payment, Time, status_is_valid}
use payment_service.Payment.Lifecycle.{SameOrder}
use payment_service.Outbox.{Event, Repository}
use payment_service.Usecase.Ports.{PaymentRepository, Gateway}
use payment_service.Usecase.Laws.{store_payment, store_event}
use payment_service.Usecase.Transaction.{
  Pool, PoolLaws, Scope, in_scope, Local, Applied, Atomic, within_tx-Atomic,
}
use payment_service.Usecase.Transaction
use payment_service.Usecase.Refund.{asked_amount}
use payment_service.Usecase.Refund
use payment_service.Postgres.{
  Database, Command, Executor, ExecutorLaws, Operators, exec_from_context,
}
use payment_service.Postgres.Payments
use payment_service.Postgres.Events
use payment_service.Postgres.Tables.{tables_of, kept_event}
use payment_service.Postgres.Refinement.{update-changed, add-stored}

-- What PostgreSQL and pgx document: the pool's statements act on what is committed, a transaction's on what
-- it sees, and commit nothing.
pub record ServerLaws {W H : Type 0} (committed : W → Database) (within : H → W → Database)
    (in_tx : H → Executor W) (pool : Executor W) (transactions : Pool W H) : Type 1 where
  pub on_pool : ExecutorLaws committed pool
  pub in_each : (tx : H) → ExecutorLaws (within tx) (in_tx tx)
  pub exec-local : (tx : H) (c : Command) (w : W) → committed ((in_tx tx).exec c w).1 ≡ committed w
  pub whole : PoolLaws committed within transactions

-- A call that succeeded, and what followed it.
called-ok :
    {S A B : Type 0} (x : Result A × S) (f : A → M S B) (b : B)
    → (after_call x f).0 ≡ ok b
    → (a : A) × (x.0 ≡ ok a) × (after_call x f ≡ f a x.1)
called-ok (ok a, s) f b done = (a, refl, refl)
called-ok (err e, s) f b done = cc done

-- The world after a call whose answer alone is changed by what follows.
last-world :
    {W A B : Type 0} (text : String) (x : Result A × W) (f : A → M W B)
    → ((a : A) (w : W) → (f a w).1 ≡ w)
    → (after_call (add_text text x) f).1 ≡ x.1
last-world text (ok a, w) f h = h a w
last-world text (err e, w) f h = refl

module _ {W H : Type 0} (in_tx : H → Executor W) (pool : Executor W) (transactions : Pool W H)
    (sql : Operators) (now : Time) (provider : Gateway W) where
  abbrev repo : Option H → PaymentRepository W
  repo ctx = Payments.repository in_tx pool ctx

  -- The repository, whose methods take the context.
  abbrev pub payments : PaymentRepository (Scope W H)
  payments = record {
    save = λ p. in_scope (λ ctx. (repo ctx).save p);
    update = λ p. in_scope (λ ctx. (repo ctx).update p);
    find_by_id = λ id. in_scope (λ ctx. (repo ctx).find_by_id id);
  }

  abbrev box : Option H → Repository W
  box ctx = Events.repository sql now in_tx pool ctx

  abbrev pub events : Repository (Scope W H)
  events = record {
    add = λ e. in_scope (λ ctx. (box ctx).add e);
    fetch_unpublished = λ n. in_scope (λ ctx. (box ctx).fetch_unpublished n);
    mark_published = λ id. in_scope (λ ctx. (box ctx).mark_published id);
  }

  abbrev pub gateway : Gateway (Scope W H)
  gateway = record {
    authorize = λ p. in_scope (λ ctx. provider.authorize p);
    capture = λ p. in_scope (λ ctx. provider.capture p);
    refund = λ p a. in_scope (λ ctx. provider.refund p a);
  }

  abbrev pub writer : Refund.RefundPayment (Scope W H)
  writer = record {
    repo = payments;
    gateway = gateway;
    outbox = some events;
    tx = some (Transaction.within_tx transactions);
  }

  -- What each use case runs in its transaction.
  abbrev pub writes : Payment → Event → M (Scope W H) (Unit {0})
  writes q event = payments.update q >> events.add event

  module _ (committed : W → Database) (within : H → W → Database)
      (S : ServerLaws committed within in_tx pool transactions) where
    update-local :
        (q : Payment) (tx : H) (w : W) → committed (Payments.update (in_tx tx) q w).1 ≡ committed w
    unfolding Payments.update
    update-local q tx w =
        ap committed (
          last-world "update payment" ((in_tx tx).exec (Payments.update_payment q) w) _
            (λ n v. refl))
        ∙ S.exec-local tx (Payments.update_payment q) w

    add-local : (e : Event) (tx : H) (w : W) → committed (Events.add (in_tx tx) e w).1 ≡ committed w
    unfolding Events.add
    add-local e tx w =
        let command = Events.insert_event (in_tx tx).timestamptz e in
        ap committed (last-world "add outbox event" ((in_tx tx).exec command w) _ (λ n v. refl))
        ∙ S.exec-local tx command w

    after-local :
        (event : Event) (tx : H) (w : W) (x : Result (Unit {0}) × W)
        → committed x.1 ≡ committed w
        → committed
            (after_call (x.0, record { ctx = some tx; world = x.1 }) λ _. events.add event).1.world
          ≡ committed w
    unfolding Events.repository exec_from_context
    after-local event tx w (ok _, v) same = add-local event tx v ∙ same
    after-local event tx w (err e, v) same = same

    -- In the context of a transaction the two writes commit nothing by themselves.
    pub writes-Local :
        (q : Payment) (event : Event) → Local committed within transactions (writes q event)
    unfolding Payments.repository exec_from_context
    writes-Local q event tx w =
        after-local event tx w (Payments.update (in_tx tx) q w) (update-local q tx w)

    -- When they succeed, the transaction sees the payment and the event, with the time that its
    -- column keeps.
    pub writes-stored :
        (id : String) (p q : Payment) (event : Event) (tx : H) (w : W)
        → lookup id (tables_of (within tx w)).payments ≡ some p
        → SameOrder p q × (status_is_valid q.status ≡ true)
        → event.published_at ≡ none
        → let out = writes q event (record { ctx = some tx; world = w }) in
          out.0 ≡ ok tt
          → tables_of (within tx out.1.world)
            ≡ store_event
                (kept_event (in_tx tx).timestamptz event)
                (store_payment q (tables_of (within tx w)))
    unfolding Payments.repository Events.repository exec_from_context
    writes-stored id p q event tx w stored (order, known) new done =
        let u = Payments.update (in_tx tx) q w in
        let (_, ran, next) =
          called-ok (u.0, record { ctx = some tx; world = u.1 }) (λ _. events.add event) tt done in
        let ran2 = sym (ap (λ o. o.0) next) ∙ done in
        ap (λ o. tables_of (within tx o.1.world)) next
        ∙ add-stored (within tx) (in_tx tx) (S.in_each tx) event u.1 new ran2
        ∙ ap (store_event (kept_event (in_tx tx).timestamptz event))
            (update-changed (within tx) (in_tx tx) (S.in_each tx) id p q w stored order known ran)
