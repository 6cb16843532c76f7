-- ===== src/Migrations.antt =====
-- internal/database/migrate/runner.go: the migration files that Create makes, and the runs of
-- golang-migrate, whose calls are parameters. The slash of filepath.Join is the separator.
pub mod Slug
pub mod Sequence
pub mod Creation
use Prim.Native.Char.{Char, code}
use payment_service.Base.{
  ℕ, zero, suc, ◌+◌, ◌-◌, ◌≡◌, refl, Bool, true, false, not, ◌&&◌, ◌||◌, String, ◌<>◌, Option, none,
  some, List, [], ◌∷◌, ◌++◌, M, Result, ok, err, Error, other, wrapped, ◌>>=◌, ◌>>◌, pure, lift,
  wrap_error, ltb, leb, ◌==◌, str_eq, if◌then◌else◌, after_call, add_text,
}
use payment_service.Base.Int.{ℤ, pos, negsuc, ltb_ℤ, add64}
use payment_service.Base.Text.{trim_space, to_lower, is_empty, atoi, decimal}

-- [a-z0-9]
abbrev pub is_alnum : Char → Bool
is_alnum c = (leb b'a' (code c) && leb (code c) b'z') || (leb b'0' (code c) && leb (code c) b'9')

-- nonAlnumRe.ReplaceAllString(s, "_"): one underscore for each longest run; the flag tells that the
-- character before was of a run.
unfoldable pub replace_runs : Bool → String → String
replace_runs inside String.[] = ""
replace_runs inside (String.◌∷◌ c s) =
    let after = replace_runs false s in
    let within = replace_runs true s in
    if is_alnum c then String.◌∷◌ c after else if inside then within else String.◌∷◌ "_" within

abbrev pub is_underscore : Char → Bool
is_underscore c = code c == b'_'

unfoldable pub trim_left : String → String
trim_left String.[] = ""
trim_left (String.◌∷◌ c s) = if is_underscore c then trim_left s else String.◌∷◌ c s

unfoldable pub trim_right : String → String
trim_right String.[] = ""
trim_right (String.◌∷◌ c s) =
    let rest = trim_right s in if is_underscore c && is_empty rest then "" else String.◌∷◌ c rest

-- slugify; the last step is strings.Trim(s, "_").
unfoldable pub slugify : String → String
slugify name = trim_right (trim_left (replace_runs false (to_lower (trim_space name))))

abbrev pub is_digit : Char → Bool
is_digit c = leb b'0' (code c) && leb (code c) b'9'

-- The longest prefix of digits, and what follows it.
unfoldable pub span_digits : String → String × String
span_digits String.[] = ("", "")
span_digits (String.◌∷◌ c s) =
    let rest = span_digits s in
    if is_digit c then (String.◌∷◌ c rest.0, rest.1) else ("", String.◌∷◌ c s)

-- .*\.(up|down)\.sql$
unfoldable pub any_then_suffix : String → Bool
any_then_suffix String.[] = false
any_then_suffix (String.◌∷◌ c s) =
    let rest = any_then_suffix s in
    str_eq (String.◌∷◌ c s) ".up.sql"
    || str_eq (String.◌∷◌ c s) ".down.sql"
    || (not (code c == b'\n') && rest)

abbrev pub after_digits : String → Bool
after_digits String.[] = false
after_digits (String.◌∷◌ c s) = is_underscore c && any_then_suffix s

-- migrationFileRe.FindStringSubmatch(name), its first group.
unfoldable pub number_text : String → Option String
unfolding span_digits any_then_suffix
number_text name =
    let (digits, rest) = span_digits name in
    if not (is_empty digits) && after_digits rest then some digits else none

-- The number of a migration file: `none` is skipped.
abbrev pub number_in : Option String → Option ℤ
number_in none = none
number_in (some digits) = atoi digits

unfoldable pub number_of : String → Option ℤ
number_of name = number_in (number_text name)

abbrev pub larger : Option ℤ → ℤ → ℤ
larger none max = max
larger (some n) max = if ltb_ℤ max n then n else max

-- The loop of nextSequence.
unfoldable pub max_from : ℤ → List String → ℤ
max_from max [] = max
max_from max (name ∷ names) = max_from (larger (number_of name) max) names

-- The calls of os: ReadDir answers `none` if there is no such directory.
pub record Files (W : Type 0) : Type 0 where
  pub read_dir : String → M W (Option (List String))
  pub mkdir_all : String → M W (Unit {0})
  pub write_file : String → String → M W (Unit {0})

abbrev pub migrations_dir : String
migrations_dir = "db/migrations"

abbrev pub following : Option (List String) → ℤ
following none = pos 1
following (some names) = add64 (max_from (pos 0) names) (pos 1)

-- %06d, of a number that is not negative.
abbrev pub zeros : ℕ → String
zeros zero = ""
zeros (suc n) = "0" <> zeros n

abbrev pub count_chars : String → ℕ
count_chars String.[] = 0
count_chars (String.◌∷◌ c s) = suc (count_chars s)

abbrev pub padded : ℤ → String
padded n = zeros (6 - count_chars (decimal n)) <> decimal n

unfoldable pub file_name : ℤ → String → String → String
file_name n slug direction = padded n <> "_" <> slug <> "." <> direction <> ".sql"

module _ {W : Type 0} (files : Files W) where
  -- nextSequence
  unfoldable pub next_sequence : M W ℤ
  next_sequence = do
    names ← wrap_error "read migrations dir" (files.read_dir migrations_dir)
    pure (following names)

  -- The loop of Create: what was written, and the error that ended it.
  abbrev pub write_all :
      ℤ → String → List String → List String → W → (List String × Option Error) × W
  write_all n slug created [] w = ((created, none), w)
  write_all n slug created (direction ∷ directions) w =
      let path = migrations_dir <> "/" <> file_name n slug direction in
      let out = files.write_file path "" w in
      elim out.0 [
        | err e ↦ ((created, some (wrapped ("write " <> path) e)), out.1)
        | ok _ ↦ write_all n slug (created ++ (path ∷ [])) directions out.1
      ]

  abbrev pub written : String → Result ℤ × W → (List String × Option Error) × W
  written slug (err e, w) = (([], some e), w)
  written slug (ok n, w) =
      let out = wrap_error "create migrations dir" (files.mkdir_all migrations_dir) w in
      elim out.0 [
        | err e ↦ (([], some e), out.1)
        | ok _ ↦ write_all n slug [] ("up" ∷ "down" ∷ []) out.1
      ]

  -- Create
  unfoldable pub create : String → W → (List String × Option Error) × W
  unfolding slugify next_sequence
  create name w =
      let slug = slugify name in
      if str_eq slug ""
      then (([], some (other "migration name is required")), w)
      else written slug (next_sequence w)

-- The calls of golang-migrate. Each run answers `none` for ErrNoChange.
pub record Migrator (W H : Type 0) : Type 0 where
  pub new : String → M W H
  pub up : H → M W (Option (Unit {0}))
  pub down : H → M W (Option (Unit {0}))
  pub steps : ℤ → H → M W (Option (Unit {0}))
  pub version : H → M W (ℕ × Bool)
  pub close : H → W → W

module _ {W H : Type 0} (m : Migrator W H) where
  abbrev closed : {A : Type 0} → H → Result A × W → Result A × W
  closed h (r, w) = (r, m.close h w)

  -- newMigrate, a run of what it gave, and the deferred Close.
  abbrev run : String → (H → M W (Option (Unit {0}))) → String → M W (Unit {0})
  run text action dsn = do
    h ← wrap_error "create migrator" (m.new dsn)
    λ w. closed h ((do change ← wrap_error text (action h); pure tt) w)

  -- Up
  unfoldable pub up : String → M W (Unit {0})
  up dsn = run "migrate up" m.up dsn

  -- Down
  unfoldable pub down : String → M W (Unit {0})
  down dsn = run "migrate down" m.down dsn

  -- Steps
  unfoldable pub steps : String → ℤ → M W (Unit {0})
  steps dsn n = run "migrate steps" (m.steps n) dsn

  -- Version: what golang-migrate answers, as it is.
  unfoldable pub version : String → M W (ℕ × Bool)
  version dsn = do h ← wrap_error "create migrator" (m.new dsn); λ w. closed h (m.version h w)
