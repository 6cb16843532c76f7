-- ===== src/Postgres/Refinement.antt =====
-- The repositories of internal/infrastructure/persistence/postgres keep what the use cases rely on, over
-- any driver that keeps its documented laws.
use payment_service.Base.{
  ℕ, ◌≡◌, refl, ap, sym, ◌∙◌, true, String, Option, none, some, List, ◌∷◌, M, Result, ok, err,
  arith, Option-cases, inl, inr, after_call, add_text,
}
use payment_service.Base.Dict.{lookup}
use payment_service.Payment.{Payment, Time, status_is_valid}
use payment_service.Payment.Lifecycle.{SameOrder}
use payment_service.Outbox.{Event}
use payment_service.Usecase.Laws.{Tables, IsKnown, store_payment, store_event}
use payment_service.Usecase.Ports.{PaymentRepository}
use payment_service.Postgres.{PaymentRow, Database, Executor, ExecutorLaws, exec_from_context}
use payment_service.Postgres.Payments.{
  row_of, updated_row, scan_payment, insert_payment, update_payment, select_payment, save, update,
  find_by_id, found, unless_none, repository,
}
use payment_service.Postgres.Events
use payment_service.Postgres.Tables.{
  tables_of, scan_payment-row_of, scan_payment-updated_row, lookup-payments_of, insert-payments_of,
  insert-events_of, id_of_found, kept_payment, kept_event,
}

pub insert_payment-tables :
    (keep : Time → Time) (p : Payment) (d : Database) (n : ℕ) (d' : Database)
    → IsKnown p
    → insert_payment keep p d ≡ some (n, d')
    → tables_of d' ≡ store_payment (kept_payment keep p) (tables_of d)
unfolding insert_payment
insert_payment-tables keep p d n d' known ran =
    ground
      (arith, insert-payments_of p.id (row_of keep p) d.payments, scan_payment-row_of keep p known)

update_row-tables :
    (row : PaymentRow) (q : Payment) (d : Database) (n : ℕ) (d' : Database)
    → lookup q.id d.payments ≡ some row
    → scan_payment (q.id, updated_row q row) ≡ q
    → update_payment q d ≡ some (n, d')
    → tables_of d' ≡ store_payment q (tables_of d)
unfolding update_payment
update_row-tables row q d n d' there read ran =
    ground (arith, there, insert-payments_of q.id (updated_row q row) d.payments, read)

pub update_payment-tables :
    (id : String) (p q : Payment) (d : Database) (n : ℕ) (d' : Database)
    → lookup id (tables_of d).payments ≡ some p
    → SameOrder p q
    → status_is_valid q.status ≡ true
    → update_payment q d ≡ some (n, d')
    → tables_of d' ≡ store_payment q (tables_of d)
update_payment-tables id p q d n d' stored same known ran =
    let (row, there, read, named) = id_of_found id d.payments p stored in
    update_row-tables row q d n d' (ap (λ i. lookup i d.payments) (same.0 ∙ named) ∙ there)
      (scan_payment-updated_row id row q (rw (← read) same) known) ran

insert_event-tables :
    (keep : Time → Time) (e : Event) (d : Database) (n : ℕ) (d' : Database)
    → e.published_at ≡ none
    → Events.insert_event keep e d ≡ some (n, d')
    → tables_of d' ≡ store_event (kept_event keep e) (tables_of d)
unfolding Events.insert_event
insert_event-tables keep e d n d' new ran = ground (arith, insert-events_of keep e d.outbox_events)

-- A call that succeeded, and what followed it.
pub wrapped-ok :
    {W A B : Type 0} (text : String) (x : Result A × W) (f : A → M W B) (b : B)
    → (after_call (add_text text x) f).0 ≡ ok b
    → (a : A) × (x.0 ≡ ok a) × (after_call (add_text text x) f ≡ f a x.1)
wrapped-ok text (ok a, w) f b done = (a, refl, refl)
wrapped-ok text (err e, w) f b done = cc done

found-ok :
    (r : Result (String × PaymentRow)) (p : Payment)
    → found r ≡ ok p
    → (id : String) × (row : PaymentRow) × (r ≡ ok (id, row)) × (p ≡ scan_payment (id, row))
found-ok (ok (id, row)) p h = (id, row, refl, ground arith)
found-ok (err e) p h = absurd (ground arith)

unless_none-ok : {W : Type 0} (n : ℕ) (w : W) → (unless_none n w).1 ≡ w
unless_none-ok n w = refl

pub selected :
    (id : String) (d : Database) (row : String × PaymentRow) (rest : List (String × PaymentRow))
    → select_payment id d ≡ some (row ∷ rest)
    → lookup id (tables_of d).payments ≡ some (scan_payment row)
unfolding select_payment
selected id d row rest h = elim (Option-cases (lookup id d.payments)) [
  | inl missing ↦ absurd (ground (arith, missing))
  | inr (r, there) ↦ ground (arith, there, lookup-payments_of id d.payments)
]

-- The tables that the use cases see.
abbrev pub seen : {W : Type 0} → (W → Database) → W → Tables
seen view w = tables_of (view w)

module _ {W : Type 0} (view : W → Database) (db : Executor W) (L : ExecutorLaws view db) where
  pub save-stored :
      (p : Payment) (w : W)
      → IsKnown p
      → (save db p w).0 ≡ ok tt
      → seen view (save db p w).1 ≡ store_payment (kept_payment db.timestamptz p) (seen view w)
  unfolding save
  save-stored p w known done =
      let (n, ran, after) =
        wrapped-ok "save payment" (db.exec (insert_payment db.timestamptz p) w) _ tt done in
      rw after (
        insert_payment-tables db.timestamptz p (view w) n
          (view (db.exec (insert_payment db.timestamptz p) w).1) known
          (L.exec-runs (insert_payment db.timestamptz p) w n ran))

  pub update-changed :
      (id : String) (p q : Payment) (w : W)
      → lookup id (seen view w).payments ≡ some p
      → SameOrder p q
      → status_is_valid q.status ≡ true
      → (update db q w).0 ≡ ok tt
      → seen view (update db q w).1 ≡ store_payment q (seen view w)
  unfolding update
  update-changed id p q w stored same known done =
      let (n, ran, after) = wrapped-ok "update payment" (db.exec (update_payment q) w) _ tt done in
      rw after (
        update_payment-tables id p q (view w) n (view (db.exec (update_payment q) w).1) stored same
          known (L.exec-runs (update_payment q) w n ran))

  pub find_by_id-read :
      (id : String) (w : W) (p : Payment)
      → (find_by_id db id w).0 ≡ ok p
      → lookup id (seen view w).payments ≡ some p
  unfolding find_by_id
  find_by_id-read id w p h =
      let (key, row, read, same) = found-ok (db.query_row (select_payment id) w).0 p h in
      let (rest, rows) = L.query_row-reads (select_payment id) w (key, row) read in
      selected id (view w) (key, row) rest rows ∙ ap some (sym same)

  pub add-stored :
      (e : Event) (w : W)
      → e.published_at ≡ none
      → (Events.add db e w).0 ≡ ok tt
      → seen view (Events.add db e w).1 ≡ store_event (kept_event db.timestamptz e) (seen view w)
  unfolding Events.add
  add-stored e w new done =
      let command = Events.insert_event db.timestamptz e in
      let (n, ran, after) = wrapped-ok "add outbox event" (db.exec command w) _ tt done in
      rw after (
        insert_event-tables db.timestamptz e (view w) n (view (db.exec command w).1) new
          (L.exec-runs command w n ran))

-- What a payment repository over PostgreSQL promises: the laws that the use cases rely on, but that a save
-- stores the payment with the creation time that the column keeps.
pub record KeptLaws {W : Type 0} (keep : Time → Time) (view : W → Tables)
    (repo : PaymentRepository W) : Type 0 where
  pub find-keeps : (id : String) (w : W) → view (repo.find_by_id id w).1 ≡ view w
  pub find-found :
      (id : String) (w : W) (p : Payment)
      → (repo.find_by_id id w).0 ≡ ok p
      → lookup id (view w).payments ≡ some p
  pub save-stores :
      (p : Payment) (w : W)
      → IsKnown p
      → (repo.save p w).0 ≡ ok tt
      → view (repo.save p w).1
        ≡ store_payment (record p { created_at = keep p.created_at }) (view w)
  pub update-stores :
      (id : String) (p q : Payment) (w : W)
      → lookup id (view w).payments ≡ some p
      → SameOrder p q
      → status_is_valid q.status ≡ true
      → (repo.update q w).0 ≡ ok tt
      → view (repo.update q w).1 ≡ store_payment q (view w)

module _ {W H : Type 0} (view : W → Database) (in_tx : H → Executor W) (pool : Executor W)
    (ctx : Option H) (L : ExecutorLaws view (exec_from_context in_tx pool ctx)) where
  abbrev pub db : Executor W
  db = exec_from_context in_tx pool ctx

  -- The payment repository over PostgreSQL, in the transaction of its context or on the pool,
  -- whose driver keeps its documented laws: a read changes nothing and finds what is stored under
  -- the id; a save that succeeds, of a payment with a known status and capture method, stores it
  -- with the creation time that its column keeps; an update that succeeds, by a payment with a
  -- known status that differs from a stored one in its status and refunded amount only, stores
  -- exactly that.
  pub postgres-KeptLaws : KeptLaws db.timestamptz (seen view) (repository in_tx pool ctx)
  unfolding repository find_by_id
  postgres-KeptLaws = record {
    find-keeps = λ id w. ap tables_of (L.query_row-keeps (select_payment id) w);
    find-found = find_by_id-read view db L;
    save-stores = save-stored view db L;
    update-stores = update-changed view db L;
  }
