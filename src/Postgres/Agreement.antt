-- ===== src/Postgres/Agreement.antt =====
-- What FindByID, Update, Delete and Save of
-- internal/infrastructure/persistence/postgres/payment_repository.go answer, on every branch, beside the
-- repository in memory.
use payment_service.Base.{
  ℕ, ◌≡◌, refl, ap, ◌∙◌, ◌⊎◌, true, String, Option, none, some, [], Result, ok, err, Error, arith,
  Option-cases, Bool-cases, Result-cases, inl, inr, after_call, add_text, not_found, wrapped,
}
use payment_service.Base.Dict.{lookup, lookup-insert_self}
use payment_service.Payment.{Payment, status_is_valid}
use payment_service.Payment.Lifecycle.{SameOrder}
use payment_service.Usecase.Laws.{Tables, IsKnown}
use payment_service.Usecase.Memory
use payment_service.Postgres.{Database, Executor, ExecutorLaws, is_no_rows}
use payment_service.Postgres.Payments.{
  update_payment, delete_payment, select_payment, save, update, find_by_id, delete, unless_none,
  scan_payment,
}
use payment_service.Postgres.Tables.{
  tables_of, lookup-payments_of, erase-payments_of, erase_absent, kept_payment,
}
use payment_service.Postgres.Refinement.{selected, save-stored, update_payment-tables}

-- A call fails with the driver's error under a text, or does as `P` says.
abbrev pub OrWrapped : {A : Type 0} → String → Result A → Type 0 → Type 0
OrWrapped text r P = ((e : Error) × (r ≡ err (wrapped text e))) ⊎ P

find-absent :
    (id : String) (d : Database)
    → select_payment id d ≡ some []
    → lookup id (tables_of d).payments ≡ none
unfolding select_payment
find-absent id d h = elim (Option-cases (lookup id d.payments)) [
  | inl missing ↦ ground (arith, missing, lookup-payments_of id d.payments)
  | inr (r, there) ↦ absurd (ground (arith, there))
]

updated-memory :
    (q : Payment) (d : Database) (n : ℕ) (d' : Database)
    → ((p : Payment) → lookup q.id (tables_of d).payments ≡ some p → SameOrder p q)
    → status_is_valid q.status ≡ true
    → update_payment q d ≡ some (n, d')
    → ((unless_none n d).0, (tables_of d').payments) ≡ Memory.update q (tables_of d).payments
unfolding Memory.update update_payment
updated-memory q d n d' same known ran = elim (Option-cases (lookup q.id d.payments)) [
  | inl missing ↦ ground (arith, missing, lookup-payments_of q.id d.payments)
  | inr (row, there) ↦
      let read : lookup q.id (tables_of d).payments ≡ some (scan_payment (q.id, row)) =
        ground (arith, there, lookup-payments_of q.id d.payments) in
      let stored =
        update_payment-tables q.id (scan_payment (q.id, row)) q d n d' read
          (same (scan_payment (q.id, row)) read) known ran in
      ground (arith, there, read, ap (λ t. t.payments) stored)
]

-- What Delete answers where no driver fails.
abbrev pub delete_answer : Option Payment → Result (Unit {0})
delete_answer none = err not_found
delete_answer (some p) = ok tt

deleted-memory :
    (id : String) (d : Database) (n : ℕ) (d' : Database)
    → delete_payment id d ≡ some (n, d')
    → ((unless_none n d).0 ≡ delete_answer (lookup id (tables_of d).payments))
      × ((tables_of d').payments ≡ (Memory.delete id (tables_of d).payments).1)
unfolding Memory.delete delete_payment
deleted-memory id d n d' ran = elim (Option-cases (lookup id d.payments)) [
  | inl missing ↦ ground (
    arith,
    missing,
    lookup-payments_of id d.payments,
    erase-payments_of id d.payments,
    erase_absent id d.payments missing,
  )
  | inr (row, there) ↦
      ground (arith, there, lookup-payments_of id d.payments, erase-payments_of id d.payments)
]

-- A failed command, or one that ran and what it did.
executed :
    {W : Type 0} (text : String) (x : Result ℕ × W) (P : Result (Unit {0}) × W → Type 0)
    → ((n : ℕ) → x.0 ≡ ok n → P (unless_none n x.1))
    → OrWrapped text
        (after_call (add_text text x) unless_none).0
        (P (after_call (add_text text x) unless_none))
executed text (err e, w) P h = inl (e, refl)
executed text (ok n, w) P h = inr (h n refl)

module _ {W : Type 0} (view : W → Database) (db : Executor W) (L : ExecutorLaws view db) where
  -- FindByID, over a driver that keeps its documented laws, changes nothing, and fails with the
  -- driver's error or answers exactly as the repository in memory does on the same payments.
  pub find_by_id-memory :
      (id : String) (w : W)
      → (view (find_by_id db id w).1 ≡ view w)
        × OrWrapped "find payment by id"
            (find_by_id db id w).0
            ((find_by_id db id w).0 ≡ (Memory.find_by_id id (tables_of (view w)).payments).0)
  unfolding find_by_id Memory.find_by_id
  find_by_id-memory id w = (
    L.query_row-keeps (select_payment id) w,
    elim (Result-cases (db.query_row (select_payment id) w).0) [
      | inl (e, bad) ↦ elim (Bool-cases (is_no_rows e)) [
        | inl empty ↦ inr (
            ground (
              arith,
              bad,
              empty,
              find-absent id (view w) (L.query_row-empty (select_payment id) w e bad empty),
            ))
        | inr other ↦ inl (e, ground (arith, bad, other))
      ]
      | inr (row, read) ↦
          let (rest, rows) = L.query_row-reads (select_payment id) w row read in
          inr (ground (arith, read, selected id (view w) row rest rows))
    ],
  )

  -- Update in PostgreSQL, over a driver that keeps its documented laws, of a payment with a known
  -- status that has the order of the one stored under its id, if there is one: it fails with the
  -- driver's error, or answers and leaves the payments exactly as the repository in memory does,
  -- ErrNotFound for an unknown id included.
  pub update-memory :
      (q : Payment) (w : W)
      → ((p : Payment) → lookup q.id (tables_of (view w)).payments ≡ some p → SameOrder p q)
      → status_is_valid q.status ≡ true
      → let out = update db q w in
        OrWrapped "update payment" out.0 (
          (out.0, (tables_of (view out.1)).payments)
          ≡ Memory.update q (tables_of (view w)).payments)
  unfolding update
  update-memory q w same known =
      executed "update payment" (db.exec (update_payment q) w)
        (λ out.
          (out.0, (tables_of (view out.1)).payments)
          ≡ Memory.update q (tables_of (view w)).payments)
        λ n ran.
          updated-memory q (view w) n (view (db.exec (update_payment q) w).1) same known
            (L.exec-runs (update_payment q) w n ran)

  -- Delete, over a driver that keeps its documented laws, fails with the driver's error; or the
  -- payments are as the repository in memory leaves them, without the id, and the answer is
  -- ErrNotFound exactly if there was none with it.
  pub delete-memory :
      (id : String) (w : W)
      → let out = delete db id w in
        let before = (tables_of (view w)).payments in
        OrWrapped "delete payment" out.0 (
          (out.0 ≡ delete_answer (lookup id before))
          × ((tables_of (view out.1)).payments ≡ (Memory.delete id before).1))
  unfolding delete
  delete-memory id w =
      executed "delete payment" (db.exec (delete_payment id) w)
        (λ out.
          (out.0 ≡ delete_answer (lookup id (tables_of (view w)).payments))
          × ((tables_of (view out.1)).payments
              ≡ (Memory.delete id (tables_of (view w)).payments).1))
        λ n ran.
          deleted-memory id (view w) n (view (db.exec (delete_payment id) w).1)
            (L.exec-runs (delete_payment id) w n ran)

  found_stored :
      (id : String) (p : Payment) (t : Tables)
      → lookup id t.payments ≡ some p
      → (Memory.find_by_id id t.payments).0 ≡ ok p
  unfolding Memory.find_by_id
  found_stored id p t h = ground arith

  -- After a Save that succeeded of a payment with a known status and capture method, in
  -- PostgreSQL, over a driver that keeps its documented laws, FindByID by its id returns exactly
  -- that payment, with the creation time that its column keeps, or fails with the driver's error:
  -- never ErrNotFound, and never another payment.
  pub find_by_id-save :
      (p : Payment) (w : W)
      → IsKnown p
      → (save db p w).0 ≡ ok tt
      → let later = (save db p w).1 in
        OrWrapped "find payment by id" (find_by_id db p.id later).0 (
          (find_by_id db p.id later).0 ≡ ok (record p { created_at = db.timestamptz p.created_at }))
  find_by_id-save p w known done =
      let later = (save db p w).1 in
      let stored =
        ap (λ t. lookup p.id t.payments) (save-stored view db L p w known done)
        ∙ lookup-insert_self p.id (kept_payment db.timestamptz p) (tables_of (view w)).payments in
      elim (find_by_id-memory p.id later).1 [
        | inl bad ↦ inl bad
        | inr same ↦ inr (
            same
            ∙ found_stored p.id (kept_payment db.timestamptz p) (tables_of (view later)) stored)
      ]
