-- ===== src/Services/Tools.antt =====
-- The tools cmd/migrate/main.go and cmd/seed/main.go. What they print is left out.
use payment_service.Base.{
  ℕ, Bool, String, ◌<>◌, Option, none, some, List, [], ◌∷◌, Result, ok, err, Error, other, ◌>>=◌,
  ◌>>◌, str_eq, if◌then◌else◌,
}
use payment_service.Base.Int.{ℤ, pos, leb_ℤ}
use payment_service.Base.Text.{atoi}
use payment_service.Config.{PostgresConfig}
use payment_service.Migrations.{Files, Migrator, create, up, down, steps, version}
use payment_service.Postgres.{Executor}
use payment_service.Postgres.Connection.{Pools, new_pool}
use payment_service.Postgres.Payments
use payment_service.Seeding.{Source, new_payment_factory, run, run_all}

-- How a tool ends: with its usage and status 1, in log.Fatal, or normally.
pub data Outcome : Type 0 where
  usage finished : Outcome
  failed : Error → Outcome

-- fatalIf
abbrev pub fatal_if : {A W : Type 0} → Result A × W → Outcome × W
fatal_if (ok a, w) = (finished, w)
fatal_if (err e, w) = (failed e, w)

-- strings.Join(args, " ")
abbrev pub joined : List String → String
joined [] = ""
joined (arg ∷ []) = arg
joined (arg ∷ args) = arg <> " " <> joined args

-- What Atoi says of a text that is no number.
abbrev pub not_a_number : Error
not_a_number = other "strconv.Atoi"

module _ {W H : Type 0} (files : Files W) (m : Migrator W H) where
  -- runCreate
  abbrev pub created : {A : Type 0} → (A × Option Error) × W → Outcome × W
  created ((paths, none), w) = (finished, w)
  created ((paths, some e), w) = (failed e, w)

  abbrev pub run_create : List String → W → Outcome × W
  run_create [] w = (failed (other "usage: migrate create <name>"), w)
  run_create (arg ∷ args) w = created (create files (joined (arg ∷ args)) w)

  -- runSteps
  abbrev pub stepped : String → Option ℤ → W → Outcome × W
  stepped dsn none w = (failed not_a_number, w)
  stepped dsn (some n) w = fatal_if (steps m dsn n w)

  abbrev pub run_steps : String → List String → W → Outcome × W
  run_steps dsn [] w = (failed (other "usage: migrate steps <n>"), w)
  run_steps dsn (arg ∷ args) w = stepped dsn (atoi arg) w

  -- main of cmd/migrate, for os.Args[1:] and the DSN of the configuration.
  unfoldable pub migrate_main : String → List String → W → Outcome × W
  unfolding create steps up down version
  migrate_main dsn [] w = (usage, w)
  migrate_main dsn (command ∷ args) w =
      if str_eq command "create"
      then run_create args w
      else if str_eq command "up"
      then fatal_if (up m dsn w)
      else if str_eq command "down"
      then fatal_if (down m dsn w)
      else if str_eq command "steps"
      then run_steps dsn args w
      else if str_eq command "version"
      then fatal_if (version m dsn w)
      else (usage, w)

-- seedCountDefault, for what SEED_COUNT holds.
abbrev positive_or_25 : Option ℤ → ℤ
positive_or_25 none = pos 25
positive_or_25 (some n) = if leb_ℤ n (pos 0) then pos 25 else n

unfoldable pub seed_count_default : (String → String) → ℤ
seed_count_default getenv =
    if str_eq (getenv "SEED_COUNT") "" then pos 25 else positive_or_25 (atoi (getenv "SEED_COUNT"))

-- main of cmd/seed, for the values of its flags.
unfoldable pub seed_main :
    {W P : Type 0}
    → Pools W P
    → (P → Executor W)
    → Source W
    → PostgresConfig
    → ℕ
    → Bool
    → W
    → Outcome × W
unfolding new_pool run run_all
seed_main pools executor from cfg count fresh w = fatal_if (
    (do
      pool ← new_pool pools cfg
      let db = executor pool
      let seeder =
          run from (Payments.save db) (some (Payments.truncate db)) new_payment_factory count fresh
      run_all (seeder ∷ [])
      λ w. (ok tt, pools.close pool w))
      w)
