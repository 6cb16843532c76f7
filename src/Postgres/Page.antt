-- ===== src/Postgres/Page.antt =====
-- FindAll of internal/infrastructure/persistence/postgres/payment_repository.go: what reaches the text
-- of its query, and the page that it answers.
use payment_service.Base.{
  ℕ, ◌+◌, ◌*◌, ◌^◌, ◌<◌, ◌≡◌, refl, ◌⊎◌, inl, inr, Bool-cases, String, some, List, map, take, drop,
  length, ok, str_eq, arith,
}
use payment_service.Base.Int.{pos}
use payment_service.Base.Text.{atoi, to_lower, equal_fold}
use payment_service.Usecase.Memory.{offset-eq, positive_or-suc}
use payment_service.Postgres.{PaymentRow, Database, Operators, read_rows}
use payment_service.Postgres.Direct.{direct, scan_rows-all_ok}
use payment_service.Postgres.Payments.{
  sanitize_sort, sanitize_order, matching, count_payments, select_page, find_all, scan_payment,
}

-- One of five column names, but for the case of its letters.
abbrev pub IsColumn : String → Type 0
IsColumn s =
    (to_lower s ≡ "id")
    ⊎ (to_lower s ≡ "amount")
    ⊎ (to_lower s ≡ "currency")
    ⊎ (to_lower s ≡ "status")
    ⊎ (s ≡ "created_at")

abbrev pub IsDirection : String → Type 0
IsDirection s = (s ≡ "ASC") ⊎ (s ≡ "DESC")

sanitize_sort-IsColumn : (sort : String) → IsColumn (sanitize_sort sort)
unfolding sanitize_sort
sanitize_sort-IsColumn sort = elim (Bool-cases (str_eq (to_lower sort) "id")) [
  | inl y ↦ inl (ground (arith, y))
  | inr a ↦ elim (Bool-cases (str_eq (to_lower sort) "amount")) [
    | inl y ↦ inr (inl (ground (arith, y, a)))
    | inr b ↦ elim (Bool-cases (str_eq (to_lower sort) "currency")) [
      | inl y ↦ inr (inr (inl (ground (arith, y, a, b))))
      | inr c ↦ elim (Bool-cases (str_eq (to_lower sort) "status")) [
        | inl y ↦ inr (inr (inr (inl (ground (arith, y, a, b, c)))))
        | inr d ↦ inr (inr (inr (inr (ground (arith, a, b, c, d)))))
      ]
    ]
  ]
]

sanitize_order-IsDirection : (order : String) → IsDirection (sanitize_order order)
unfolding sanitize_order
sanitize_order-IsDirection order = elim (Bool-cases (equal_fold order "asc")) [
  | inl y ↦ inl (ground (arith, y))
  | inr n ↦ inr (ground (arith, n))
]

-- Whatever a client asks for as sort column and order, what FindAll writes into the text of its
-- query is a name that is one of four column names but for the case of its letters or created_at,
-- and ASC or DESC.
pub sanitize-safe :
    (sort order : String) → IsColumn (sanitize_sort sort) × IsDirection (sanitize_order order)
sanitize-safe sort order = (sanitize_sort-IsColumn sort, sanitize_order-IsDirection order)

module _ (sql : Operators) where
  -- The rows that match a search, in the order that was asked for.
  abbrev pub listed : String → String → String → Database → List (String × PaymentRow)
  listed sort order search d =
      sql.order_by (sanitize_sort sort) (sanitize_order order) (matching sql search d.payments)

  -- FindAll in PostgreSQL, on a server that answers, for a page and a limit that read as numbers
  -- from 1 on, with fewer than 2 ^ 63 pages before it and an offset below 2 ^ 63, changes nothing
  -- and returns the rows at that page's place of those that match the search, in the order asked
  -- for, as many as there are up to the limit, and the number of all that match.
  pub find_all-direct :
      (page limit sort order search : String) (d : Database) (n k : ℕ)
      → atoi page ≡ some (pos (n + 1))
      → atoi limit ≡ some (pos (k + 1))
      → n < 2 ^ 63
      → n * (k + 1) < 2 ^ 63
      → find_all direct sql page limit sort order search d ≡ (
        ok (record {
          items = map scan_payment (take (k + 1) (drop (n * (k + 1)) (listed sort order search d)));
          total = length (matching sql search d.payments);
        }),
        d,
      )
  unfolding find_all count_payments select_page read_rows
  find_all-direct page limit sort order search d n k reads_page reads_limit small fits =
      rw
        (
          find_all,
          reads_page,
          reads_limit,
          positive_or-suc (pos 1) n,
          positive_or-suc (pos 10) k,
          offset-eq n (k + 1) small fits,
          scan_rows-all_ok "scan payment" scan_payment
              (take (k + 1) (drop (n * (k + 1)) (listed sort order search d))),
        )
        refl
