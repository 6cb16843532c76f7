-- ===== src/Tests/Requests.antt =====
-- Idempotent requests, HTTP replies and messages at concrete inputs.
use text.Mathlib.TextEquality.{eq_iff}
use payment_service.Base.{
  ◌≡◌, refl, ◌≢◌, ◌⊎◌, ℕ, suc, ◌≤◌, Bool, false, ◌&&◌, String, [], some, ok, err, other, Error,
  Result, M, key_already_exists, arith, str_eq, if◌then◌else◌,
}
use payment_service.Base.Int.{pos}
use payment_service.Base.Text.{trim_space}
use payment_service.Base.Dict.{lookup}
use payment_service.Json.{null_body}
use payment_service.Idempotency.{CachedResponse, validate_key, execute, acquire_and_run, is_success}
use payment_service.Idempotency.Redis.{World, json, redis, data_key, Compact}
use payment_service.Idempotency.Replay.{
  locked, SameKeys, execute_failed, execute_answered, execute_again,
}
use payment_service.Idempotency.Race.{Missed, race_runs_both}
use payment_service.Messaging.{ack, dead_letter, process_with_retry, handle_message}
use payment_service.Messaging.Retry.{Calls, Tried, process_with_retry-Tried}
use payment_service.Messaging.Handle.{handle_message_lem}

abbrev key : String
key = "order-1"

key_valid : validate_key key ≡ ok tt
unfolding validate_key trim_space
key_valid = refl

-- Every text is taken for JSON in its compact form.
abbrev compact : Compact
compact s = some s

abbrev answer : CachedResponse
answer = record { status_code = pos 201; body = null_body; request_hash = "" }

-- It counts its runs.
abbrev counting : M (World ℕ) CachedResponse
counting w = (ok answer, record w { app = suc w.app })

abbrev failing : M (World ℕ) CachedResponse
failing w = (err (other "down"), record w { app = suc w.app })

abbrev fresh : World ℕ
fresh = record { keys = []; app = 0 }

hash_named : ◌≢◌ {A = String} "h" ""
hash_named = ground (arith, eq_iff "h" "")

execute_again_example :
    let out = execute (redis compact) key "h" counting fresh in
    let again = execute (redis compact) key "h" counting out.1 in
    (again.1 ≡ out.1) × (again.0 ≡ (if str_eq "h" "h" then out.0 else err key_already_exists))
unfolding lookup
execute_again_example =
    execute_again compact key "h" "h" counting counting fresh
      (record (locked key fresh) { app = 1 }) answer key_valid (λ w. refl) refl refl refl
      (omega arith, omega arith) refl hash_named

execute_failed_example :
    let out = execute (redis compact) key "h" failing fresh in
    (out.0 ≡ err (other "down")) × SameKeys fresh out.1 × (out.1.app ≡ 1)
unfolding lookup
execute_failed_example =
    execute_failed compact key "h" key_valid failing fresh (record (locked key fresh) { app = 1 })
      (other "down") (λ w. refl) refl refl refl

execute_answered_example :
    let out = execute (redis compact) key "h" counting fresh in
    let response = record answer { request_hash = "h" } in
    (out.0 ≡ ok response)
    × (out.1.app ≡ 1)
    × ((k : String)
        → lookup k out.1.keys ≡ (
            if is_success answer && str_eq (data_key key) k
            then some (json response)
            else lookup k fresh.keys))
unfolding lookup
execute_answered_example =
    execute_answered compact key "h" key_valid counting fresh
      (record (locked key fresh) { app = 1 }) answer null_body refl (λ w. refl) refl refl refl

race_runs_both_example :
    let between = (execute (redis compact) key "h" counting fresh).1 in
    let after = (acquire_and_run (redis compact) key "h" counting between).1 in
    (¬ Missed key between) × (between.app ≡ 1) × (after.app ≡ suc between.app)
unfolding lookup
race_runs_both_example =
    let between = (execute (redis compact) key "h" counting fresh).1 in
    race_runs_both compact key "h" "h" counting counting fresh
      (record (locked key fresh) { app = 1 })
      (record (locked key between) { app = suc between.app }) answer answer key_valid (λ w. refl)
      refl refl refl (omega arith, omega arith) refl refl

-- A handler that fails once.
abbrev flaky : M ℕ (Unit {0})
flaky ℕ.zero = (err (other "down"), 1)
flaky (suc n) = (ok tt, suc (suc n))

abbrev never : ℕ → Bool
never k = false

process_with_retry-Tried_example : Tried flaky never 4 0 (process_with_retry never flaky (pos 3) 0)
process_with_retry-Tried_example = process_with_retry-Tried flaky never 3 0

handle_message_lem_example :
    let out = handle_message never (pos 3) flaky 0 in
    (calls : ℕ) × (r : Result (Unit {0})) × Calls flaky calls 0 r out.1
    × (1 ≤ calls)
    × (calls ≤ 4)
    × (((r ≡ ok tt) × (out.0 ≡ ack)) ⊎ ((e : Error) × (r ≡ err e) × (out.0 ≡ dead_letter)))
handle_message_lem_example = handle_message_lem never 3 flaky 0
