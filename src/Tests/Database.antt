-- ===== src/Tests/Database.antt =====
-- The PostgreSQL repositories at concrete tables, over a server that answers.
use payment_service.Base.{◌≡◌, refl, none, some, [], ◌∷◌, false, ok, arith, string_discrete}
use payment_service.Base.Dict.{lookup}
use payment_service.Payment.{
  Payment, pending, completed, status_text, status_of, capture_method_of, capture_method_text,
  status_is_valid, capture_method_is_valid,
}
use payment_service.Payment.Lifecycle.{SameOrder}
use payment_service.Usecase.Memory
use payment_service.Postgres.{Database, ExecutorLaws, Operators, exec_from_context}
use payment_service.Postgres.Direct.{direct, direct-ExecutorLaws}
use payment_service.Postgres.Payments.{
  row_of, scan_payment, insert_payment, save, update, find_by_id, find_all, matching,
}
use payment_service.Postgres.Payments
use payment_service.Postgres.Tables.{tables_of, payments_of}
use payment_service.Postgres.Refinement.{seen, KeptLaws, postgres-KeptLaws}
use payment_service.Postgres.Agreement.{OrWrapped, update-memory, find_by_id-save}
use payment_service.Tests.Fixtures.{payment}

abbrev same : Database → Database
same d = d

-- An ILIKE that finds nothing, and rows that come in the order asked for.
abbrev pub plain : Operators
plain = record {
  ilike = λ a b. false;
  order_by = λ column direction rows. rows;
  order_by_time = λ key descending rows. rows;
}

abbrev pub blank : Database
blank = record {
  payments = [];
  outbox_events = [];
  notifications = [];
  audit_logs = [];
  subscriptions = [];
  deliveries = [];
}

abbrev pub stored : Payment → Database
stored p = record blank { payments = (p.id, row_of (λ t. t) p) ∷ [] }

laws : ExecutorLaws same (exec_from_context (λ (h : Unit {0}). direct) direct none)
unfolding exec_from_context
laws = direct-ExecutorLaws

postgres-KeptLaws_example :
    KeptLaws (λ t. t) (seen same) (Payments.repository (λ (h : Unit {0}). direct) direct none)
unfolding exec_from_context
postgres-KeptLaws_example = postgres-KeptLaws same (λ (h : Unit {0}). direct) direct none laws

there : lookup "pay-1" (tables_of (stored (payment pending 0))).payments ≡ some (payment pending 0)
unfolding payments_of lookup string_discrete row_of scan_payment capture_method_of status_of
    status_text capture_method_text
there = refl

same_order :
    (p : Payment)
    → lookup "pay-1" (tables_of (stored (payment pending 0))).payments ≡ some p
    → SameOrder p (payment completed 0)
same_order p h = ground (arith, there, h)

update-memory_example :
    OrWrapped "update payment"
      (update direct (payment completed 0) (stored (payment pending 0))).0
      ((
        (update direct (payment completed 0) (stored (payment pending 0))).0,
        (tables_of (update direct (payment completed 0) (stored (payment pending 0))).1).payments,
      )
        ≡ Memory.update (payment completed 0) (tables_of (stored (payment pending 0))).payments)
unfolding status_is_valid
update-memory_example =
    update-memory same direct direct-ExecutorLaws (payment completed 0) (stored (payment pending 0))
      same_order refl

find_by_id-save_example :
    OrWrapped "find payment by id"
      (find_by_id direct "pay-1" (save direct (payment pending 0) blank).1).0
      ((find_by_id direct "pay-1" (save direct (payment pending 0) blank).1).0
        ≡ ok (payment pending 0))
unfolding save insert_payment lookup status_is_valid capture_method_is_valid
find_by_id-save_example =
    find_by_id-save same direct direct-ExecutorLaws (payment pending 0) blank (refl, refl) refl
