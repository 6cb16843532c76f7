-- ===== src/Postgres/Payments.antt =====
-- internal/infrastructure/persistence/postgres/payment_repository.go: its SQL statements as functions
-- on the tables, and its methods over any driver. ILIKE and ORDER BY are PostgreSQL's, and are
-- parameters.
use payment_service.Base.{
  ℕ, ◌==◌, Bool, ◌||◌, String, ◌<>◌, Option, none, some, List, [], ◌∷◌, take, drop, length, M,
  Result, ok, err, wrapped, not_found, ◌>>=◌, pure, lift, wrap_error, str_eq, if◌then◌else◌,
}
use payment_service.Base.Int.{ℤ, pos, leb_ℤ, wrap64, sub64, ◌*ℤ◌}
use payment_service.Base.Dict.{Dict, lookup, insert, erase}
use payment_service.Base.Text.{atoi, to_lower, equal_fold}
use payment_service.Payment.{
  Time, Payment, status_text, status_of, capture_method_text, capture_method_of,
}
use payment_service.Usecase.Memory.{positive_or, PageResult}
use payment_service.Usecase.Ports.{PaymentRepository}
use payment_service.Postgres.{
  PaymentRow, Database, Command, Query, Executor, exec_from_context, read_rows, is_no_rows,
  Operators,
}

-- The columns of a payment; created_at keeps what a TIMESTAMPTZ does of the time.
unfoldable pub row_of : (Time → Time) → Payment → PaymentRow
row_of keep p = record {
  amount = p.money.amount;
  currency = p.money.currency;
  status = status_text p.status;
  capture_method = capture_method_text p.capture_method;
  installments = p.installments;
  refunded_amount = p.refunded_amount;
  created_at = keep p.created_at;
}

-- scanPayment, once Scan has filled in the columns.
unfoldable pub scan_payment : String × PaymentRow → Payment
scan_payment (id, row) = record {
  id = id;
  money = record { amount = row.amount; currency = row.currency };
  status = status_of row.status;
  capture_method = capture_method_of row.capture_method;
  installments = row.installments;
  refunded_amount = row.refunded_amount;
  created_at = row.created_at;
}

abbrev pub with_payments : Database → Dict PaymentRow → Database
with_payments d rows = record d { payments = rows }

-- INSERT INTO payments. The amount is checked and the id is the primary key.
unfoldable pub insert_payment : (Time → Time) → Payment → Command
insert_payment keep p d = elim (lookup p.id d.payments) [
  | some row ↦ none
  | none ↦
      if leb_ℤ p.money.amount (pos 0)
      then none
      else some (1, with_payments d (insert p.id (row_of keep p) d.payments))
]

-- SET amount = $2, currency = $3, status = $4, refunded_amount = $5
unfoldable pub updated_row : Payment → PaymentRow → PaymentRow
updated_row p row = record row {
  amount = p.money.amount;
  currency = p.money.currency;
  status = status_text p.status;
  refunded_amount = p.refunded_amount;
}

-- UPDATE payments … WHERE id = $1
unfoldable pub update_payment : Payment → Command
update_payment p d = elim (lookup p.id d.payments) [
  | none ↦ some (0, d)
  | some row ↦
      if leb_ℤ p.money.amount (pos 0)
      then none
      else some (1, with_payments d (insert p.id (updated_row p row) d.payments))
]

abbrev one_row : {V : Type 0} → String → Option V → List (String × V)
one_row id none = []
one_row id (some row) = (id, row) ∷ []

-- SELECT … FROM payments WHERE id = $1
unfoldable pub select_payment : String → Query (String × PaymentRow)
select_payment id d = some (one_row id (lookup id d.payments))

-- DELETE FROM payments WHERE id = $1
unfoldable pub delete_payment : String → Command
delete_payment id d = elim (lookup id d.payments) [
  | none ↦ some (0, d)
  | some row ↦ some (1, with_payments d (erase id d.payments))
]

-- TRUNCATE TABLE payments, which counts no rows.
unfoldable pub truncate_payments : Command
truncate_payments d = some (0, with_payments d [])

-- sanitizeSort
unfoldable pub sanitize_sort : String → String
sanitize_sort sort =
    let s = to_lower sort in
    if str_eq s "id" || str_eq s "amount" || str_eq s "currency" || str_eq s "status"
    then sort
    else "created_at"

-- sanitizeOrder
unfoldable pub sanitize_order : String → String
sanitize_order order = if equal_fold order "asc" then "ASC" else "DESC"

module _ (sql : Operators) where
  -- whereClause
  abbrev pub matches : String → String × PaymentRow → Bool
  matches search (id, row) =
      str_eq search ""
      || sql.ilike id ("%" <> search <> "%")
      || sql.ilike row.status ("%" <> search <> "%")

  abbrev pub matching : String → Dict PaymentRow → List (String × PaymentRow)
  matching search [] = []
  matching search (row ∷ rows) =
      let rest = matching search rows in if matches search row then row ∷ rest else rest

  -- SELECT COUNT(*) FROM payments …
  unfoldable pub count_payments : String → Query ℕ
  count_payments search d = some (length (matching search d.payments) ∷ [])

  -- LIMIT $2 OFFSET $3: the server refuses negative numbers.
  abbrev pub page_of : {R : Type 0} → ℤ → ℤ → List R → Option (List R)
  page_of (pos limit) (pos offset) rows = some (take limit (drop offset rows))
  page_of _ _ rows = none

  -- SELECT … ORDER BY … LIMIT $2 OFFSET $3
  unfoldable pub select_page : String → String → String → ℤ → ℤ → Query (String × PaymentRow)
  select_page search column order limit offset d =
      page_of limit offset (sql.order_by column order (matching search d.payments))

-- What FindByID makes of the answer of QueryRow and Scan.
abbrev pub found : Result (String × PaymentRow) → Result Payment
found (ok row) = ok (scan_payment row)
found (err e) = if is_no_rows e then err not_found else err (wrapped "find payment by id" e)

-- if tag.RowsAffected() == 0
abbrev pub unless_none : {W : Type 0} → ℕ → M W (Unit {0})
unless_none n = lift (if n == 0 then err not_found else ok tt)

module _ {W : Type 0} (db : Executor W) where
  -- Save
  unfoldable pub save : Payment → M W (Unit {0})
  save p = do n ← wrap_error "save payment" (db.exec (insert_payment db.timestamptz p)); pure tt

  -- Update
  unfoldable pub update : Payment → M W (Unit {0})
  update p = do n ← wrap_error "update payment" (db.exec (update_payment p)); unless_none n

  -- FindByID
  unfoldable pub find_by_id : String → M W Payment
  find_by_id id w = let answer = db.query_row (select_payment id) w in (found answer.0, answer.1)

  -- Delete
  unfoldable pub delete : String → M W (Unit {0})
  delete id = do n ← wrap_error "delete payment" (db.exec (delete_payment id)); unless_none n

  -- Truncate
  unfoldable pub truncate : M W (Unit {0})
  truncate = do n ← wrap_error "truncate payments" (db.exec truncate_payments); pure tt

  -- FindAll
  unfoldable pub find_all : Operators → String → String → String → String → String → M W PageResult
  find_all sql page limit sort order search = do
    let page_num = positive_or (pos 1) (atoi page)
    let limit_num = positive_or (pos 10) (atoi limit)
    let offset = wrap64 (sub64 page_num (pos 1) *ℤ limit_num)
    total ← wrap_error "count payments" (db.query_row (count_payments sql search))
    rows ← wrap_error "find all payments" (
        db.query
          (select_page sql search (sanitize_sort sort) (sanitize_order order) limit_num offset))
    payments ← lift (read_rows "scan payment" "iterate payments" scan_payment rows)
    pure (record { items = payments; total = total })

-- The repository, in the transaction of its context or on the pool.
unfoldable pub repository :
    {W H : Type 0} → (H → Executor W) → Executor W → Option H → PaymentRepository W
repository in_tx pool ctx =
    let db = exec_from_context in_tx pool ctx in
    record { save = save db; update = update db; find_by_id = find_by_id db }
