-- ===== src/Usecase/Memory.antt =====
-- internal/infrastructure/persistence/memory/payment_repository.go, and the ports over it and over
-- the outbox of outbox_repository.go, whose state is a pair of tables.
use payment_service.Base.{
  ℕ, ◌+◌, ◌-◌, ◌*◌, ◌<◌, ◌^◌, ◌≡◌, refl, ap, String, Option, none, some, List, [], ◌∷◌, length,
  take, drop, take_all, drop_all, length-drop, ◌∙◌, M, Result, ok, err, not_found, if◌then◌else◌,
  arith,
}
use payment_service.Base.Int.{
  ℤ, pos, wrap64, ◌*ℤ◌, ◌+ℤ◌, ◌-ℤ◌, ltb_ℤ, leb_ℤ, add64, sub64, wrap64_id,
}
use payment_service.Base.Dict.{Dict, lookup, insert, erase}
use payment_service.Payment.{Payment, Time}
use payment_service.Outbox.{Repository}
use payment_service.Outbox.Memory
use payment_service.Usecase.Ports.{PaymentRepository}
use payment_service.Usecase.Laws.{Tables, RepositoryLaws, OutboxLaws}

-- Save
unfoldable pub save : Payment → M (Dict Payment) (Unit {0})
unfolding insert
save p payments = (ok tt, insert p.id p payments)

-- Update
unfoldable pub update : Payment → M (Dict Payment) (Unit {0})
unfolding insert lookup
update p payments = elim (lookup p.id payments) [
  | none ↦ (err not_found, payments)
  | some _ ↦ (ok tt, insert p.id p payments)
]

-- FindByID
unfoldable pub find_by_id : String → M (Dict Payment) Payment
unfolding lookup
find_by_id id payments = elim (lookup id payments) [
  | none ↦ (err not_found, payments)
  | some p ↦ (ok p, payments)
]

-- Delete
unfoldable pub delete : String → M (Dict Payment) (Unit {0})
unfolding erase
delete id payments = (ok tt, erase id payments)

-- payment.PageResult
pub record PageResult : Type 0 where
  pub items : List Payment
  pub total : ℕ

-- strconv.Atoi on an argument of the query: `none` is its error.
abbrev pub positive_or : ℤ → Option ℤ → ℤ
positive_or fallback none = fallback
positive_or fallback (some n) = if ltb_ℤ n (pos 1) then fallback else n

abbrev pub values : Dict Payment → List Payment
values [] = []
values ((k, p) ∷ payments) = p ∷ values payments

-- all[offset:end], which panics out of range: `none`.
abbrev pub slice : List Payment → ℤ → ℤ → Option (List Payment)
slice all (pos from) (pos to) =
    if ltb_ℤ (pos to) (pos from) then none else some (take (to - from) (drop from all))
slice all _ _ = none

abbrev page_of : ℕ → Option (List Payment) → Option PageResult
page_of total none = none
page_of total (some items) = some (record { items = items; total = total })

-- FindAll after its numbers are parsed. `none` is a panic.
abbrev pub find_all_paged : ℤ → ℤ → Dict Payment → Option PageResult
find_all_paged page limit payments =
    let all = values payments in
    let total = length all in
    let offset = wrap64 (sub64 page (pos 1) *ℤ limit) in
    let end = add64 offset limit in
    if leb_ℤ (pos total) offset
    then some (record { items = []; total = total })
    else page_of total (slice all offset (if ltb_ℤ (pos total) end then pos total else end))

-- FindAll, on what Atoi makes of its first two arguments; the others are not used. Go walks the map in
-- no fixed order; the model walks the entries as they are listed.
unfoldable pub find_all : Option ℤ → Option ℤ → Dict Payment → Option PageResult
find_all page limit payments =
    find_all_paged (positive_or (pos 1) page) (positive_or (pos 10) limit) payments

-- The repositories as the ports of the use cases, on the two tables.
abbrev beside : {A : Type 0} → Tables → Result A × Dict Payment → Result A × Tables
beside t (r, payments) = (r, record t { payments = payments })

unfoldable pub repository : PaymentRepository Tables
unfolding save update find_by_id
repository = record {
  save = λ p t. beside t (save p t.payments);
  update = λ p t. beside t (update p t.payments);
  find_by_id = λ id t. beside t (find_by_id id t.payments);
}

unfoldable pub outbox : Time → Repository Tables
unfolding Memory.add Memory.fetch_unpublished Memory.mark_published
outbox now = record {
  add = λ e t. (ok tt, record t { events = Memory.add e t.events });
  fetch_unpublished = λ limit t. (ok (Memory.fetch_unpublished limit t.events), t);
  mark_published = λ id t. (ok tt, record t { events = Memory.mark_published id now t.events });
}

find_by_id-keeps : (id : String) (m : Dict Payment) → (find_by_id id m).1 ≡ m
unfolding find_by_id
find_by_id-keeps id m = ground arith

find_by_id-found :
    (id : String) (m : Dict Payment) (p : Payment)
    → (find_by_id id m).0 ≡ ok p
    → lookup id m ≡ some p
unfolding find_by_id
find_by_id-found id m p h = ground arith

update-inserts :
    (p : Payment) (m : Dict Payment) → (update p m).0 ≡ ok tt → (update p m).1 ≡ insert p.id p m
unfolding update
update-inserts p m h = ground arith

-- The payment repository in memory keeps the laws that the use cases rely on: a read changes
-- nothing and finds what is stored under the id, and a save or an update that succeeds stores the
-- payment under its id.
pub repository-RepositoryLaws : RepositoryLaws (λ t. t) repository
unfolding repository save update find_by_id
repository-RepositoryLaws = record {
  find-keeps =
      λ id t. ap (λ m. record { payments = m; events = t.events }) (find_by_id-keeps id t.payments);
  find-found = λ id t p found. find_by_id-found id t.payments p found;
  save-stores = λ p t known done. refl;
  update-stores = λ id p q t stored same known done.
      ap (λ m. record { payments = m; events = t.events }) (update-inserts q t.payments done);
}

-- And so does the outbox in memory.
pub outbox-OutboxLaws : (now : Time) → OutboxLaws (λ t. t) (outbox now)
unfolding outbox Memory.add
outbox-OutboxLaws now = record { add-stores = λ e t new done. refl }

mul_pos : (a b : ℕ) → pos a *ℤ pos b ≡ pos (a * b)
unfolding ◌*ℤ◌
mul_pos a b = ground arith

wrap_pos : (a : ℕ) → a < 2 ^ 63 → wrap64 (pos a) ≡ pos a
wrap_pos a h = wrap64_id (pos a) (omega arith, omega arith)

pub offset-eq :
    (page limit : ℕ)
    → page < 2 ^ 63
    → page * limit < 2 ^ 63
    → wrap64 (sub64 (pos (page + 1)) (pos 1) *ℤ pos limit) ≡ pos (page * limit)
unfolding sub64 ◌-ℤ◌
offset-eq page limit h k =
    ap (λ a. wrap64 (a *ℤ pos limit)) (ground (arith, wrap_pos page h))
    ∙ ap wrap64 (mul_pos page limit)
    ∙ wrap_pos (page * limit) k

end-eq : (a b : ℕ) → a + b < 2 ^ 63 → add64 (pos a) (pos b) ≡ pos (a + b)
unfolding add64 ◌+ℤ◌
end-eq a b h = ground (arith, wrap_pos (a + b) h)

-- After the offset and the end are computed.
page_at : List Payment → ℤ → ℤ → Option PageResult
page_at all offset end =
    let total = length all in
    if leb_ℤ (pos total) offset
    then some (record { items = []; total = total })
    else page_of total (slice all offset (if ltb_ℤ (pos total) end then pos total else end))

page_at-eq :
    (all : List Payment) (offset limit : ℕ)
    → page_at all (pos offset) (pos (offset + limit))
      ≡ some (record { items = take limit (drop offset all); total = length all })
unfolding page_at
page_at-eq all offset limit = ground (
  arith,
  drop_all offset all,
  length-drop offset all,
  take_all limit (drop offset all),
  take_all (length all - offset) (drop offset all),
)

pub positive_or-suc :
    (fallback : ℤ) (n : ℕ) → positive_or fallback (some (pos (n + 1))) ≡ pos (n + 1)
positive_or-suc fallback n = ground arith

-- FindAll in memory, for a page and a limit from 1 on whose page ends below 2 ^ 63, holds the
-- entries at that page's place, as many as there are up to the limit, with the number of all
-- entries, and does not panic.
pub find_all-eq :
    (page k : ℕ) (payments : Dict Payment)
    → page < 2 ^ 63
    → page * (k + 1) + (k + 1) < 2 ^ 63
    → find_all (some (pos (page + 1))) (some (pos (k + 1))) payments
      ≡ some (record {
        items = take (k + 1) (drop (page * (k + 1)) (values payments));
        total = length (values payments);
      })
unfolding find_all page_at
find_all-eq page k payments small h =
    ap (λ n. find_all_paged n (positive_or (pos 10) (some (pos (k + 1)))) payments)
      (positive_or-suc (pos 1) page)
    ∙ ap (λ n. find_all_paged (pos (page + 1)) n payments) (positive_or-suc (pos 10) k)
    ∙ ap (λ o. page_at (values payments) o (add64 o (pos (k + 1))))
        (offset-eq page (k + 1) small (omega arith))
    ∙ ap (page_at (values payments) (pos (page * (k + 1)))) (end-eq (page * (k + 1)) (k + 1) h)
    ∙ page_at-eq (values payments) (page * (k + 1)) (k + 1)
