-- ===== src/Tests/Tools.antt =====
-- The configuration, the migration files and the factory at concrete inputs.
use payment_service.Base.{
  ◌≡◌, refl, String, List, ok, none, some, [], ◌∷◌, All, arith, string_discrete,
}
use payment_service.Base.Int.{pos}
use payment_service.Base.Text.{digits_value, trim_space, to_lower, decimal, digits, atoi}
use payment_service.Config.{load, int_or_default}
use payment_service.Config.Loaded.{Counts, counts, load-Counts, int_or_default-decimal}
use payment_service.Migrations.{
  Files, create, replace_runs, trim_left, trim_right, max_from, number_of, number_text, span_digits,
  any_then_suffix, file_name, slugify,
}
use payment_service.Migrations.Sequence.{AtMost}
use payment_service.Migrations.Creation.{path_of, create_lem}

-- An environment in which every variable holds a 7.
abbrev sevens : String → String
sevens key = "7"

load-Counts_example : All Counts (counts (load sevens (λ s. none)))
load-Counts_example = load-Counts sevens (λ s. none)

int_or_default-decimal_example :
    int_or_default sevens (λ s. none) "OUTBOX_BATCH_SIZE" (pos 100) ≡ pos 7
unfolding decimal digits
int_or_default-decimal_example =
    int_or_default-decimal sevens (λ s. none) "OUTBOX_BATCH_SIZE" (pos 100) 6 refl (omega arith)

third : max_from (pos 0) ("000003_init.up.sql" ∷ []) ≡ pos 3
unfolding max_from number_of number_text span_digits any_then_suffix string_discrete digits_value
    atoi
third = refl

-- A disk with one migration, which keeps the paths that are written.
abbrev disk : Files (List String)
disk = record {
  read_dir = λ dir w. (ok (some ("000003_init.up.sql" ∷ [])), w);
  mkdir_all = λ dir w. (ok tt, w);
  write_file = λ path text w. (ok tt, path ∷ w);
}

abbrev up_path : String
up_path = path_of 4 "Add index" "up"

abbrev down_path : String
down_path = path_of 4 "Add index" "down"

create_lem_example :
    (create disk "Add index" [] ≡ ((up_path ∷ down_path ∷ [], none), down_path ∷ up_path ∷ []))
    × (number_of (file_name (pos 4) (slugify "Add index") "up") ≡ some (pos 4))
    × (number_of (file_name (pos 4) (slugify "Add index") "down") ≡ some (pos 4))
    × All (AtMost (pos 3)) ("000003_init.up.sql" ∷ [])
unfolding slugify replace_runs trim_left trim_right trim_space to_lower string_discrete
create_lem_example =
    create_lem disk "Add index" ("000003_init.up.sql" ∷ []) 3 [] [] [] (up_path ∷ [])
      (down_path ∷ up_path ∷ []) refl third (omega arith) refl refl refl refl
