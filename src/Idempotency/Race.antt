-- ===== src/Idempotency/Race.antt =====
-- Two requests under one key at the same time. Service.Execute of
-- internal/application/idempotency/service.go reads the stored answer before it takes the lock, so
-- another request can run between the two.
use payment_service.Base.{
  ◌≡◌, refl, ◌∙◌, String, none, M, ok, inl, inr, Bool-cases, Option-cases, some, arith,
}
use payment_service.Base.Dict.{lookup}
use payment_service.Idempotency.{
  CachedResponse, validate_key, is_success, execute, acquire_and_run, run_locked,
}
use payment_service.Idempotency.Redis.{
  World, lock_key, data_key, lock_key-ne-data_key, redis, find, lock, unlock, save, Compact,
  written_body,
}
use payment_service.Idempotency.Replay.{KeepsKeys, locked, HasSuccess, execute_answered}

-- Between the read and the call of Lock a request that found nothing is at this point.
abbrev pub Missed : {X : Type 0} → String → World X → Type 0
Missed key w = lookup (data_key key) w.keys ≡ none

-- A run of Execute that is not interrupted goes from there to the lock at once.
pub execute-acquire_and_run :
    {X : Type 0} (compact : Compact) (key request_hash : String) (fn : M (World X) CachedResponse)
    (w : World X)
    → validate_key key ≡ ok tt
    → Missed key w
    → execute (redis compact) key request_hash fn w
      ≡ acquire_and_run (redis compact) key request_hash fn w
unfolding execute find
execute-acquire_and_run compact key request_hash fn w valid missing =
    rw (valid, execute, missing) refl

acquire_and_run-app :
    {X : Type 0} (compact : Compact) (key request_hash : String) (fn : M (World X) CachedResponse)
    (w w' : World X) (answer : CachedResponse)
    → lookup (lock_key key) w.keys ≡ none
    → fn (locked key w) ≡ (ok answer, w')
    → (acquire_and_run (redis compact) key request_hash fn w).1.app ≡ w'.app
unfolding acquire_and_run lock run_locked unlock save
acquire_and_run-app compact key request_hash fn w w' answer free answered =
    rw (acquire_and_run, free, answered, run_locked)
      (elim (Bool-cases (is_success answer)) [
        | inl good ↦ elim (Option-cases (written_body compact answer.body)) [
          | inl unwritten ↦ rw (good, save, unwritten) refl
          | inr (body, written) ↦ rw (good, save, written) refl
        ]
        | inr bad ↦ rw bad refl
      ])

-- Two requests under one valid and free key, of which the first keeps off the keys of Redis, that
-- both read before either stored an answer: if the first then runs to its end with success and a
-- body that json.Marshal writes as it is, and the second goes on from its read, the answer of the
-- first is stored by then and the second runs its function all the same.
pub race_runs_both :
    {X : Type 0} (compact : Compact) (key first second : String)
    (fn fn' : M (World X) CachedResponse) (w w' w'' : World X) (answer answer' : CachedResponse)
    → validate_key key ≡ ok tt
    → KeepsKeys fn
    → Missed key w
    → lookup (lock_key key) w.keys ≡ none
    → fn (locked key w) ≡ (ok answer, w')
    → HasSuccess answer
    → written_body compact answer.body ≡ some answer.body
    → fn' (locked key (execute (redis compact) key first fn w).1) ≡ (ok answer', w'')
    → let between = (execute (redis compact) key first fn w).1 in
      let after = (acquire_and_run (redis compact) key second fn' between).1 in
      (¬ Missed key between) × (between.app ≡ w'.app) × (after.app ≡ w''.app)
race_runs_both compact key first second fn fn' w w' w'' answer answer' valid keeps missing free
      answered good written answered' =
    let (fine, app, keys) =
      execute_answered compact key first valid fn w w' answer answer.body written keeps missing free
        answered in
    (
      (λ gone. ground (arith, keys (data_key key))),
      app,
      acquire_and_run-app compact key second fn' _ w'' answer'
          (keys (lock_key key) ∙ ground (arith, lock_key-ne-data_key key key)) answered',
    )
