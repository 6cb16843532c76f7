-- ===== src/Postgres/Refunding.antt =====
-- A run of RefundPayment over PostgreSQL (internal/application/usecase/refund_payment.go,
-- internal/infrastructure/persistence/postgres): what it commits.
use payment_service.Base.{
  ◌≡◌, refl, ap, ◌∙◌, ◌⊎◌, inl, inr, String, none, some, M, Result, ok, err, Error, wrapped,
  after_call,
}
use payment_service.Base.Int.{ℤ}
use payment_service.Base.Dict.{lookup}
use payment_service.Payment.{Payment, Time}
use payment_service.Payment
use payment_service.Payment.Lifecycle.{refunds, apply}
use payment_service.Outbox.{Event}
use payment_service.Usecase.Ports.{Gateway, within_tx, add_event}
use payment_service.Usecase.Events.{
  TimeFormat, PaymentResponse, to_payment_response, build_payment_event, event_payment_refunded,
}
use payment_service.Usecase.Laws.{store_payment, store_event}
use payment_service.Usecase.Atomic.Changes.{apply-Update, build_payment_event-unpublished}
use payment_service.Usecase.Transaction.{Pool, Scope, Applied, Atomic, within_tx-Atomic}
use payment_service.Usecase.Transaction
use payment_service.Usecase.Refund.{asked_amount}
use payment_service.Usecase.Refund
use payment_service.Postgres.{Database, Executor, Operators, exec_from_context}
use payment_service.Postgres.Payments
use payment_service.Postgres.Tables.{tables_of, kept_event}
use payment_service.Postgres.Refinement.{find_by_id-read}
use payment_service.Postgres.Wired.{
  ServerLaws, payments, gateway, writer, writes, writes-Local, writes-stored,
}

abbrev answer_of : {B : Type 0} → B → Result (Unit {0}) → Result B
answer_of b (ok _) = ok b
answer_of b (err e) = err e

module _ {W H : Type 0} (committed : W → Database) where
  -- A run that began at `w`: it failed and committed nothing, or it is as `Q` says.
  abbrev pub Run :
      {A : Type 0} → W → (Result A × Scope W H → Type 0) → Result A × Scope W H → Type 0
  Run w Q x = (((e : Error) × (x.0 ≡ err e)) × (committed x.1.world ≡ committed w)) ⊎ Q x

  -- A call that commits nothing, and what follows it.
  Run-step :
      {A B : Type 0} (w : W) (Q : Result B × Scope W H → Type 0) (x : Result A × Scope W H)
      (f : A → M (Scope W H) B)
      → committed x.1.world ≡ committed w
      → ((a : A) (s : Scope W H)
          → x ≡ (ok a, s)
          → committed s.world ≡ committed w
          → Run w Q (f a s))
      → Run w Q (after_call x f)
  Run-step w Q (ok a, s) f same k = k a s refl same
  Run-step w Q (err e, s) f same k = inl ((e, refl), same)

  -- A transaction that is atomic, and the value that is returned after it.
  Run-writes :
      {B : Type 0} (within : H → W → Database) (transactions : Pool W H) (w : W)
      (Q : Result B × Scope W H → Type 0) (b : B) (fn : M (Scope W H) (Unit {0})) (s : Scope W H)
      (x : Result (Unit {0}) × Scope W H)
      → Atomic committed within transactions fn s.world (x.0, x.1.world)
      → committed s.world ≡ committed w
      → ((r : Result B)
          → Applied committed within transactions fn s.world (committed x.1.world)
          → (r ≡ ok b) ⊎ ((e : Error) × (r ≡ err (wrapped "commit tx" e)))
          → Q (r, x.1))
      → Run w Q (after_call x (λ _ v. (ok b, v)))
  Run-writes within transactions w Q b fn s (ok _, v) (inl ((e, bad), _)) same k = cc bad
  Run-writes within transactions w Q b fn s (ok _, v) (inr (applied, _)) same k =
      inr (k (ok b) applied (inl refl))
  Run-writes within transactions w Q b fn s (err e, v) (inl (_, kept)) same k =
      inl ((e, refl), kept ∙ same)
  Run-writes within transactions w Q b fn s (err e, v) (inr (applied, inl bad)) same k = cc bad
  Run-writes within transactions w Q b fn s (err e, v) (inr (applied, inr (e', lost))) same k =
      inr (k (err e) applied (inr (e', ap (answer_of b) lost)))

module _ {W H : Type 0} (in_tx : H → Executor W) (pool : Executor W) (transactions : Pool W H)
    (sql : Operators) (now : Time) (provider : Gateway W) (committed : W → Database)
    (within : H → W → Database) (S : ServerLaws committed within in_tx pool transactions)
    (provider-keeps : (p : Payment) (a : ℤ) (w : W)
      → committed (provider.refund p a w).1 ≡ committed w)
    (format : TimeFormat) where
  -- What a run from `w` that committed something has done, with its answer.
  abbrev pub Refunded : String → ℤ → String → Time → W → Result PaymentResponse × Scope W H → Type 0
  Refunded id amount event_id event_at w x =
      (p : Payment) × (q : Payment) × (provider_id : String) × (event : Event) × (tx : H) × (lookup
          id (tables_of (committed w)).payments
        ≡ some p)
      × (Payment.refund (asked_amount amount p) p ≡ ok q)
      × ((provider.refund q (asked_amount amount p) (Payments.find_by_id pool id w).1).0
          ≡ ok provider_id)
      × (build_payment_event format q event_payment_refunded event_id event_at ≡ ok event)
      × (tables_of (committed x.1.world)
          ≡ store_event (kept_event (in_tx tx).timestamptz event)
              (store_payment q (tables_of (committed w))))
      × ((x.0 ≡ ok (to_payment_response q)) ⊎ ((e : Error) × (x.0 ≡ err (wrapped "commit tx" e))))

  -- What the two writes have committed.
  gained :
      (id : String) (amount : ℤ) (event_id : String) (event_at : Time) (p q : Payment)
      (event : Event) (tx : H) (w start : W) (d : Database)
      → within tx start ≡ committed w
      → lookup id (tables_of (committed w)).payments ≡ some p
      → Payment.refund (asked_amount amount p) p ≡ ok q
      → build_payment_event format q event_payment_refunded event_id event_at ≡ ok event
      → let out =
          writes in_tx pool transactions sql now provider q event
            (record { ctx = some tx; world = start }) in
        out.0 ≡ ok tt
        → d ≡ within tx out.1.world
        → tables_of d
          ≡ store_event
              (kept_event (in_tx tx).timestamptz event)
              (store_payment q (tables_of (committed w)))
  unfolding apply
  gained id amount event_id event_at p q event tx w start d sees read moved built ran left =
      let there = ap tables_of sees in
      ap tables_of left
      ∙ writes-stored in_tx pool transactions sql now provider committed within S id p q event tx
          start (ap (λ t. lookup id t.payments) there ∙ read)
          (apply-Update (refunds (asked_amount amount p)) p moved)
          (build_payment_event-unpublished format q event_payment_refunded event_id event_at built)
          ran
      ∙ ap (λ t. store_event (kept_event (in_tx tx).timestamptz event) (store_payment q t)) there

  -- A run of RefundPayment over the PostgreSQL repositories and WithinTx, in a context without a
  -- transaction, whose driver keeps what PostgreSQL and pgx document and whose provider commits
  -- nothing in our tables: it fails and what is committed is as before; or the payment that was
  -- read allowed the refund of the asked amount, the provider was asked for exactly that amount of
  -- it and accepted, and what is committed gained, together, the payment after the refund and its
  -- one event, with the time that its column keeps. Then it returns the payment, or the error of
  -- the commit, whose answer was lost.
  pub refund_in_postgres :
      (id : String) (amount : ℤ) (event_id : String) (event_at : Time) (w : W)
      → Run committed w (Refunded id amount event_id event_at w) (
          Refund.execute format
            (writer in_tx pool transactions sql now provider)
            id
            amount
            event_id
            event_at
            (record { ctx = none; world = w }))
  unfolding Refund.execute add_event within_tx apply Payments.repository Payments.find_by_id
      exec_from_context
  refund_in_postgres id amount event_id event_at w =
      let Q = Refunded id amount event_id event_at w in
      let repo = payments in_tx pool transactions sql now provider in
      let psp = gateway in_tx pool transactions sql now provider in
      Run-step committed w Q (repo.find_by_id id (record { ctx = none; world = w })) _
        (S.on_pool.query_row-keeps (Payments.select_payment id) w)
        λ p s1 found same1.
          let asked = asked_amount amount p in
          Run-step committed w Q (Payment.refund asked p, s1) _ same1
            λ q s2 moved same2.
              Run-step committed w Q (psp.refund q asked s2) _
                (provider-keeps q asked s2.world ∙ same2)
                λ provider_id s3 taken same3.
                  Run-step committed w Q
                    (build_payment_event format q event_payment_refunded event_id event_at, s3) _
                    same3
                    λ event s4 built same4.
                      let fn = writes in_tx pool transactions sql now provider q event in
                      let read =
                        find_by_id-read committed pool S.on_pool id w p (ap (λ x. x.0) found) in
                      Run-writes committed within transactions w Q (to_payment_response q) fn s4
                        (Transaction.within_tx transactions fn s4)
                        (within_tx-Atomic committed within transactions S.whole fn s4 (
                          writes-Local in_tx pool transactions sql now provider committed within S q
                            event)).0
                        same4
                        λ r applied answer.
                          let (tx, start, sees, ran, left) = applied in
                          (
                            p,
                            q,
                            provider_id,
                            event,
                            tx,
                            read,
                            ap (λ x. x.0) moved,
                            ap (λ v. (provider.refund q asked v.world).0)
                                  (ap (λ x. x.1) found ∙ ap (λ x. x.1) moved)
                                ∙ ap (λ x. x.0) taken,
                            ap (λ x. x.0) built,
                            gained id amount event_id event_at p q event tx w start _ (sees ∙ same4)
                                read (ap (λ x. x.0) moved) (ap (λ x. x.0) built) ran left,
                            answer,
                          )
