-- ===== src/Usecase/Transaction.antt =====
-- WithinTx of internal/infrastructure/persistence/postgres/tx.go, over the driver's transactions. The
-- context that carries a transaction is a part of the scope in which a function runs.
use payment_service.Base.{
  ◌≡◌, refl, ap, ◌∙◌, ◌⊎◌, inl, inr, Option, some, M, Result, ok, err, Error, sym, add_text,
  wrap_error, wrapped,
}
use payment_service.Usecase.Ports.{TxManager}

-- pgx: Begin hands out a transaction, which is rolled back or committed once.
pub record Pool (W : Type 0) (H : Type 0) : Type 0 where
  pub begin : M W H
  pub rollback : H → W → W
  pub commit : H → M W (Unit {0})

-- What a function that takes a context runs in: the transaction under txKey, if any, and the world.
pub record Scope (W : Type 0) (H : Type 0) : Type 0 where
  pub ctx : Option H
  pub world : W

-- A method that reads the transaction of its context.
abbrev pub in_scope : {W H A : Type 0} → (Option H → M W A) → M (Scope W H) A
in_scope f s = let out = f s.ctx s.world in (out.0, record { ctx = s.ctx; world = out.1 })

module _ {W H : Type 0} (pool : Pool W H) where
  -- After fn, in the transaction `tx`. The error of a rollback is dropped, as in the source.
  abbrev pub finish : H → Result (Unit {0}) × W → Result (Unit {0}) × W
  finish tx (ok _, w) = wrap_error "commit tx" (pool.commit tx) w
  finish tx (err e, w) = (err e, pool.rollback tx w)

  -- context.WithValue(ctx, txKey{}, tx)
  abbrev pub with_value : H → W → Scope W H
  with_value tx w = record { ctx = some tx; world = w }

  abbrev pub begun : M (Scope W H) (Unit {0}) → Result H × W → Result (Unit {0}) × W
  begun fn (ok tx, w) = let out = fn (with_value tx w) in finish tx (out.0, out.1.world)
  begun fn (err e, w) = (err (wrapped "begin tx" e), w)

  -- TxManager.WithinTx: the context of the caller is as before after it.
  unfoldable pub within_tx : TxManager (Scope W H)
  within_tx fn s =
      let out = begun fn (pool.begin s.world) in (out.0, record { ctx = s.ctx; world = out.1 })

-- What PostgreSQL and pgx document of transactions, for what is committed and for what a transaction sees:
-- a begin commits nothing, and the new transaction sees what is committed; a rollback leaves what is
-- committed as it is; a commit, whatever it answers, has done nothing or put all that the transaction
-- sees in the place of what was committed and has not been changed meanwhile, and has done that if it
-- reports success.
pub record PoolLaws {W H D : Type 0} (committed : W → D) (within : H → W → D) (pool : Pool W H)
    : Type 0 where
  pub begin-keeps : (w : W) → committed (pool.begin w).1 ≡ committed w
  pub begin-sees :
      (w : W) (tx : H) → (pool.begin w).0 ≡ ok tx → within tx (pool.begin w).1 ≡ committed w
  pub rollback-keeps : (tx : H) (w : W) → committed (pool.rollback tx w) ≡ committed w
  pub commit-applies :
      (begin later : W) (tx : H)
      → (pool.begin begin).0 ≡ ok tx
      → committed later ≡ committed begin
      → (pool.commit tx later).0 ≡ ok tt
      → committed (pool.commit tx later).1 ≡ within tx later
  pub commit-whole :
      (begin later : W) (tx : H)
      → (pool.begin begin).0 ≡ ok tx
      → committed later ≡ committed begin
      → (committed (pool.commit tx later).1 ≡ committed later)
        ⊎ (committed (pool.commit tx later).1 ≡ within tx later)

module _ {W H D : Type 0} (committed : W → D) (within : H → W → D) (pool : Pool W H) where
  -- A function that, in the context of a transaction, commits nothing by itself.
  abbrev pub Local : M (Scope W H) (Unit {0}) → Type 0
  Local fn =
      (tx : H) (w : W) → committed (fn (record { ctx = some tx; world = w })).1.world ≡ committed w

  -- The function ran with success in the context of a transaction that saw what was committed, and
  -- what it left there, `d`, is committed.
  abbrev pub Applied : M (Scope W H) (Unit {0}) → W → D → Type 0
  Applied fn w d =
      (tx : H) × (start : W) × (within tx start ≡ committed w)
      × ((fn (record { ctx = some tx; world = start })).0 ≡ ok tt)
      × (d ≡ within tx (fn (record { ctx = some tx; world = start })).1.world)

  -- Nothing is committed and an error is returned; or all is, and an error is that of the commit.
  abbrev pub Atomic : M (Scope W H) (Unit {0}) → W → Result (Unit {0}) × W → Type 0
  Atomic fn w x =
      (((e : Error) × (x.0 ≡ err e)) × (committed x.1 ≡ committed w))
      ⊎ (Applied fn w (committed x.1)
          × ((x.0 ≡ ok tt) ⊎ ((e : Error) × (x.0 ≡ err (wrapped "commit tx" e)))))

  module _ (L : PoolLaws committed within pool) where
    answered :
        (fn : M (Scope W H) (Unit {0})) (w start : W) (tx : H) (x : Result (Unit {0}) × W)
        → let out = fn (with_value pool tx start) in
          pool.commit tx out.1.world ≡ x
          → (pool.begin w).0 ≡ ok tx
          → within tx start ≡ committed w
          → out.0 ≡ ok tt
          → committed out.1.world ≡ committed w
          → Atomic fn w (add_text "commit tx" x)
    answered fn w start tx (ok _, w') h got sees ran same = inr (
      (
        tx,
        start,
        sees,
        ran,
        ap (λ v. committed v.1) (sym h) ∙ L.commit-applies w _ tx got same (ap (λ v. v.0) h),
      ),
      inl refl,
    )
    answered fn w start tx (err e, w') h got sees ran same =
        elim (L.commit-whole w (fn (with_value pool tx start)).1.world tx got same) [
          | inl none ↦
              inl ((wrapped "commit tx" e, refl), ap (λ v. committed v.1) (sym h) ∙ none ∙ same)
          | inr all ↦
              inr ((tx, start, sees, ran, ap (λ v. committed v.1) (sym h) ∙ all), inr (e, refl))
        ]

    finished :
        (fn : M (Scope W H) (Unit {0})) (w start : W) (tx : H) (out : Result (Unit {0}) × Scope W H)
        → fn (with_value pool tx start) ≡ out
        → (pool.begin w).0 ≡ ok tx
        → within tx start ≡ committed w
        → committed out.1.world ≡ committed w
        → Atomic fn w (finish pool tx (out.0, out.1.world))
    finished fn w start tx (ok _, s) h got sees same =
        answered fn w start tx (pool.commit tx s.world) (ap (λ o. pool.commit tx o.1.world) h) got
          sees (ap (λ o. o.0) h) (ap (λ o. committed o.1.world) h ∙ same)
    finished fn w start tx (err e, s) h got sees same =
        inl ((e, refl), L.rollback-keeps tx s.world ∙ same)

    started :
        (fn : M (Scope W H) (Unit {0})) (w : W) (x : Result H × W)
        → Local fn
        → pool.begin w ≡ x
        → Atomic fn w (begun pool fn x)
    started fn w (ok tx, start) local h =
        let got = ap (λ v. v.0) h in
        let kept = ap (λ v. committed v.1) (sym h) ∙ L.begin-keeps w in
        finished fn w start tx (fn (with_value pool tx start)) refl got
          (ap (λ v. within tx v.1) (sym h) ∙ L.begin-sees w tx got) (local tx start ∙ kept)
    started fn w (err e, start) local h =
        inl ((wrapped "begin tx" e, refl), ap (λ v. committed v.1) (sym h) ∙ L.begin-keeps w)

    -- WithinTx, over a driver that keeps what PostgreSQL and pgx document of transactions, of a
    -- function that in the context of a transaction commits nothing by itself: it fails and what
    -- is committed is as before, or its function ran with success in the context of a transaction
    -- that saw what was committed, and exactly what it left in that transaction is committed, with
    -- no error but, perhaps, that of the commit. The context of the caller is the same after it.
    pub within_tx-Atomic :
        (fn : M (Scope W H) (Unit {0})) (s : Scope W H)
        → Local fn
        → let out = within_tx pool fn s in
          Atomic fn s.world (out.0, out.1.world) × (out.1.ctx ≡ s.ctx)
    unfolding within_tx
    within_tx-Atomic fn s local = (started fn s.world (pool.begin s.world) local refl, refl)
