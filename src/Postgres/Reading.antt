-- ===== src/Postgres/Reading.antt =====
-- A method of internal/infrastructure/persistence/postgres that reads rows: a query, the loop over its
-- rows, and rows.Err().
use payment_service.Base.{
  ◌≡◌, refl, ap, ◌∙◌, ◌⊎◌, inl, inr, String, some, List, map, M, ok, err, Error, wrapped, ◌>>=◌,
  lift, wrap_error, Result-cases,
}
use payment_service.Postgres.{Database, Query, Executor, ExecutorLaws, read_rows, read_rows-ok}

module _ {W R A : Type 0} (view : W → Database) (db : Executor W) (L : ExecutorLaws view db)
    (text scanning iterating : String) (scan : R → A) (q : Query R) where
  abbrev pub reading : M W (List A)
  reading = do rows ← wrap_error text (db.query q); lift (read_rows scanning iterating scan rows)

  -- It fails, or all rows of the query were read; and the tables are as they were.
  abbrev pub Answered : (List A → Type 0) → W → Type 0
  Answered P w =
      (view (reading w).1 ≡ view w)
      × (((e : Error) × ((reading w).0 ≡ err e)) ⊎ ((xs : List A) × ((reading w).0 ≡ ok xs) × P xs))

  pub reading-Answered :
      (P : List A → Type 0) (w : W)
      → ((rs : List R) → q (view w) ≡ some rs → P (map scan rs))
      → Answered P w
  reading-Answered P w h = elim (Result-cases (db.query q w).0) [
    | inl (e, bad) ↦ rw bad (L.query-keeps q w, inl (wrapped text e, refl))
    | inr (rows, good) ↦ rw good (
      L.query-keeps q w,
      elim (Result-cases (read_rows scanning iterating scan rows)) [
        | inl (e, bad) ↦ inl (e, bad)
        | inr (xs, read) ↦
            let (fine, (rs, scanned, same)) = read_rows-ok scanning iterating scan rows xs read in
            inr (xs, read, rw same (h rs (L.query-reads q w rows rs good fine scanned)))
      ],
    )
  ]

  -- Where the rows are known.
  pub reading-eq :
      (xs : List A) (w : W)
      → ((rs : List R) → q (view w) ≡ some rs → map scan rs ≡ xs)
      → (view (reading w).1 ≡ view w)
        × (((e : Error) × ((reading w).0 ≡ err e)) ⊎ ((reading w).0 ≡ ok xs))
  reading-eq xs w h =
      let (kept, answered) = reading-Answered (λ ys. ys ≡ xs) w h in
      (kept, elim answered [ inl bad ↦ inl bad | inr (ys, read, same) ↦ inr (read ∙ ap ok same) ])
