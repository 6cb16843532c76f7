-- ===== src/Postgres.antt =====
-- internal/infrastructure/persistence/postgres: what a repository sees of PostgreSQL through pgx. The
-- tables are those of db/migrations; a SQL statement of a repository is a function on them, and the
-- driver that runs it is a parameter, which may fail at any call. tx.go chooses the driver's
-- transaction or its pool.
pub mod Connection
pub mod Direct
pub mod Payments
pub mod Events
pub mod Reading
pub mod Tables
pub mod Refinement
pub mod Agreement
pub mod Page
pub mod Backlog
pub mod Logs
pub mod Subscriptions
pub mod Deliveries
pub mod Retries
pub mod Wired
pub mod Refunding
pub mod Relayed
use payment_service.Base.{
  ℕ, ◌≡◌, refl, String, Option, none, some, List, [], ◌∷◌, M, Result, ok, err, Error, other,
  no_rows, wrapped, cause, map, All, arith, inl, inr, Result-cases, Option-cases, Bool, true, false,
}
use payment_service.Base.Int.{ℤ}
use payment_service.Base.Dict.{Dict}
use payment_service.Payment.{Time}
use payment_service.Json.{Body}
use payment_service.Webhook.{Subscription, DeliveryStatus}
use payment_service.Audit.{AuditEntry}

-- The table payments, but for its primary key id.
pub record PaymentRow : Type 0 where
  pub amount : ℤ
  pub currency : String
  pub status : String
  pub capture_method : String
  pub installments : ℤ
  pub refunded_amount : ℤ
  pub created_at : Time

-- The table outbox_events, but for its primary key id.
pub record OutboxRow : Type 0 where
  pub aggregate_id : String
  pub event_type : String
  pub payload : Body
  pub created_at : Time
  pub published_at : Option Time

-- The table notifications, but for its primary key id.
pub record NotificationRow : Type 0 where
  pub payment_id : String
  pub event_type : String
  pub channel : String
  pub recipient : String
  pub message_text : String
  pub status : String
  pub last_error : Option String
  pub created_at : Time
  pub updated_at : Time

-- The table webhook_deliveries; its status holds one of the four texts of the type.
pub record DeliveryRow : Type 0 where
  pub id : String
  pub subscription_id : String
  pub event_id : String
  pub event_type : String
  pub payload : Body
  pub status : DeliveryStatus
  pub attempts : ℤ
  pub last_error : Option String
  pub next_attempt_at : Option Time
  pub created_at : Time
  pub updated_at : Time

-- A table with a primary key is a map from its keys.
pub record Database : Type 0 where
  pub payments : Dict PaymentRow
  pub outbox_events : Dict OutboxRow
  pub notifications : Dict NotificationRow
  pub audit_logs : Dict AuditEntry
  pub subscriptions : Dict Subscription
  pub deliveries : List DeliveryRow

-- A statement that writes, with the number of rows that it touched; `none` if a constraint refuses it.
abbrev pub Command : Type 0
Command = Database → Option (ℕ × Database)

-- A statement that reads; `none` if the server refuses it.
abbrev pub Query : Type 0 → Type 0
Query R = Database → Option (List R)

-- PostgreSQL's ILIKE, its ORDER BY for a column of payments and a direction, and its ORDER BY for a
-- column of time, descending or not.
pub record Operators : Type 1 where
  pub ilike : String → String → Bool
  pub order_by : String → String → List (String × PaymentRow) → List (String × PaymentRow)
  pub order_by_time : {R : Type 0} → (R → Time) → Bool → List R → List R

-- pgx.Rows: what Scan answers at each Next, and what Err says after the last.
pub record Rows (R : Type 0) : Type 0 where
  pub rows : List (Result R)
  pub failure : Option Error

-- executor: the pool, or a transaction; and what a TIMESTAMPTZ column keeps of a time that is sent to it.
pub record Executor (W : Type 0) : Type 1 where
  pub exec : Command → M W ℕ
  pub query : {R : Type 0} → Query R → M W (Rows R)
  pub query_row : {R : Type 0} → Query R → M W R
  pub timestamptz : Time → Time

-- execFromContext: the transaction of the context, as an executor, or the pool.
unfoldable pub exec_from_context :
    {W H : Type 0} → (H → Executor W) → Executor W → Option H → Executor W
exec_from_context in_tx pool none = pool
exec_from_context in_tx pool (some tx) = in_tx tx

-- The loop over rows.Next: it stops at the first row that Scan refuses.
abbrev pub scan_rows : {R A : Type 0} → String → (R → A) → List (Result R) → Result (List A)
scan_rows text scan [] = ok []
scan_rows text scan (err e ∷ rows) = err (wrapped text e)
scan_rows text scan (ok r ∷ rows) = elim (scan_rows text scan rows) [
  | ok xs ↦ ok (scan r ∷ xs)
  | err e ↦ err e
]

abbrev checked : {A : Type 0} → String → Option Error → Result A → Result A
checked text (some e) (ok xs) = err (wrapped text e)
checked text _ r = r

-- The rows of a query as the repositories read them: the loop, and then rows.Err().
unfoldable pub read_rows : {R A : Type 0} → String → String → (R → A) → Rows R → Result (List A)
read_rows scanning iterating scan rows =
    checked iterating rows.failure (scan_rows scanning scan rows.rows)

-- errors.Is(err, pgx.ErrNoRows)
abbrev is_sentinel : Error → Bool
is_sentinel no_rows = true
is_sentinel _ = false

unfoldable pub is_no_rows : Error → Bool
unfolding cause
is_no_rows e = is_sentinel (cause e)

-- What PostgreSQL and pgx document: a command that reports success had its effect on the tables and
-- counts the rows it touched; a query changes nothing, and its rows are complete if Err is nil; a
-- single row is the first of the query. Of a command that failed nothing is known.
pub record ExecutorLaws {W : Type 0} (view : W → Database) (db : Executor W) : Type 1 where
  pub exec-runs :
      (c : Command) (w : W) (n : ℕ)
      → (db.exec c w).0 ≡ ok n
      → c (view w) ≡ some (n, view (db.exec c w).1)
  pub query-keeps : {R : Type 0} (q : Query R) (w : W) → view (db.query q w).1 ≡ view w
  pub query-reads :
      {R : Type 0} (q : Query R) (w : W) (rows : Rows R) (xs : List R)
      → (db.query q w).0 ≡ ok rows
      → rows.failure ≡ none
      → scan_rows "" (λ r. r) rows.rows ≡ ok xs
      → q (view w) ≡ some xs
  pub query_row-keeps : {R : Type 0} (q : Query R) (w : W) → view (db.query_row q w).1 ≡ view w
  pub query_row-reads :
      {R : Type 0} (q : Query R) (w : W) (r : R)
      → (db.query_row q w).0 ≡ ok r
      → (rest : List R) × (q (view w) ≡ some (r ∷ rest))
  pub query_row-empty :
      {R : Type 0} (q : Query R) (w : W) (e : Error)
      → (db.query_row q w).0 ≡ err e
      → is_no_rows e ≡ true
      → q (view w) ≡ some []

-- What SQL says of ORDER BY: it gives back the rows of its query, in another order.
pub record OperatorsLaws (sql : Operators) : Type 1 where
  pub order_by_time-All :
      {R : Type 0} (P : R → Type 0) (key : R → Time) (descending : Bool) (rows : List R)
      → All P rows
      → All P (sql.order_by_time key descending rows)

scanned :
    {R A : Type 0} (text : String) (scan : R → A) (rows : List (Result R)) (xs : List A)
    → scan_rows text scan rows ≡ ok xs
    → (rs : List R) × (scan_rows "" (λ r. r) rows ≡ ok rs) × (xs ≡ map scan rs)
scanned text scan [] xs h = ([], refl, ground arith)
scanned text scan (err e ∷ rows) xs h = cc h
scanned text scan (ok r ∷ rows) xs h = elim (Result-cases (scan_rows text scan rows)) [
  | inl (e, bad) ↦ absurd (ground (arith, bad))
  | inr (ys, good) ↦
      let (rs, read, same) = scanned text scan rows ys good in
      (r ∷ rs, ground (arith, read), ground (arith, good, same))
]

-- Rows that were read without an error are complete.
pub read_rows-ok :
    {R A : Type 0} (scanning iterating : String) (scan : R → A) (rows : Rows R) (xs : List A)
    → read_rows scanning iterating scan rows ≡ ok xs
    → (rows.failure ≡ none)
      × ((rs : List R) × (scan_rows "" (λ r. r) rows.rows ≡ ok rs) × (xs ≡ map scan rs))
unfolding read_rows
read_rows-ok scanning iterating scan rows xs h =
    elim (Result-cases (scan_rows scanning scan rows.rows)) [
      | inl (e, bad) ↦ absurd (ground (arith, bad))
      | inr (ys, good) ↦ elim (Option-cases rows.failure) [
        | inr (e, late) ↦ absurd (ground (arith, good, late))
        | inl fine ↦ (fine, scanned scanning scan rows.rows xs (ground (arith, good, fine)))
      ]
    ]
