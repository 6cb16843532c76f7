-- ===== src/Postgres/Direct.antt =====
-- A server that answers every statement, as the executors of
-- internal/infrastructure/persistence/postgres see it: what the laws of a driver ask for can be had.
use payment_service.Base.{
  ℕ, ◌≡◌, refl, ap, String, Option, none, some, List, [], ◌∷◌, map, Result, ok, err, Error, other,
  no_rows, arith, true,
}
use payment_service.Postgres.{Database, Executor, ExecutorLaws, Rows, scan_rows, is_no_rows}

-- A server that never fails but where a statement is refused.
abbrev refused : Error
refused = other "refused by the server"

abbrev answer : Database → Option (ℕ × Database) → Result ℕ × Database
answer d none = (err refused, d)
answer d (some (n, d')) = (ok n, d')

abbrev pub all_ok : {R : Type 0} → List R → List (Result R)
all_ok [] = []
all_ok (r ∷ rs) = ok r ∷ all_ok rs

abbrev rows_of : {R : Type 0} → Option (List R) → Result (Rows R)
rows_of none = err refused
rows_of (some rs) = ok (record { rows = all_ok rs; failure = none })

abbrev first_of : {R : Type 0} → Option (List R) → Result R
first_of none = err refused
first_of (some []) = err no_rows
first_of (some (r ∷ rs)) = ok r

abbrev pub direct : Executor Database
direct = record {
  exec = λ c d. answer d (c d);
  query = λ q d. (rows_of (q d), d);
  query_row = λ q d. (first_of (q d), d);
  timestamptz = λ t. t;
}

pub scan_rows-all_ok :
    {R A : Type 0} (text : String) (scan : R → A) (rs : List R)
    → scan_rows text scan (all_ok rs) ≡ ok (map scan rs)
scan_rows-all_ok text scan [] = refl
scan_rows-all_ok text scan (r ∷ rs) = rw (scan_rows-all_ok text scan rs) refl

map-id : {A : Type 0} (xs : List A) → map (λ x. x) xs ≡ xs
map-id [] = refl
map-id (x ∷ xs) = ap (λ ys. x ∷ ys) (map-id xs)

answer-runs :
    (d : Database) (o : Option (ℕ × Database)) (n : ℕ)
    → (answer d o).0 ≡ ok n
    → o ≡ some (n, (answer d o).1)
answer-runs d none n h = cc h
answer-runs d (some (m, d')) n h = ground arith

rows_of-reads :
    {R : Type 0} (o : Option (List R)) (rows : Rows R) (xs : List R)
    → rows_of o ≡ ok rows
    → scan_rows "" (λ r. r) rows.rows ≡ ok xs
    → o ≡ some xs
rows_of-reads none rows xs h k = absurd (ground arith)
rows_of-reads (some rs) rows xs h k =
    ground (arith, scan_rows-all_ok "" (λ r. r) rs, map-id rs, h, k)

first_of-reads :
    {R : Type 0} (o : Option (List R)) (r : R)
    → first_of o ≡ ok r
    → (rest : List R) × (o ≡ some (r ∷ rest))
first_of-reads none r h = absurd (ground arith)
first_of-reads (some []) r h = absurd (ground arith)
first_of-reads (some (x ∷ rs)) r h = (rs, ground arith)

first_of-empty :
    {R : Type 0} (o : Option (List R)) (e : Error)
    → first_of o ≡ err e
    → is_no_rows e ≡ true
    → o ≡ some []
unfolding is_no_rows
first_of-empty none e h k = absurd (ground (arith, h, k))
first_of-empty (some []) e h k = refl
first_of-empty (some (x ∷ rs)) e h k = absurd (ground arith)

pub direct-ExecutorLaws : ExecutorLaws (λ d. d) direct
direct-ExecutorLaws = record {
  exec-runs = λ c d n ran. answer-runs d (c d) n ran;
  query-keeps = λ q d. refl;
  query-reads = λ q d rows xs ran fine scanned. rows_of-reads (q d) rows xs ran scanned;
  query_row-keeps = λ q d. refl;
  query_row-reads = λ q d r ran. first_of-reads (q d) r ran;
  query_row-empty = λ q d e ran k. first_of-empty (q d) e ran k;
}
