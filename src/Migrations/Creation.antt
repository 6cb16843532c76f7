-- ===== src/Migrations/Creation.antt =====
-- A run of Create of internal/database/migrate/runner.go: the files that it writes.
use payment_service.Base.{
  suc, ◌^◌, ◌<◌, ◌≡◌, refl, ap, ◌∙◌, inl, inr, false, ℕ, String, ◌<>◌, none, some, List, [], ◌∷◌,
  All, ok, str_eq, add_text, wrap_error,
}
use payment_service.Base.Int.{pos, add64}
use payment_service.Migrations.{
  Files, create, written, write_all, next_sequence, migrations_dir, number_of, max_from, file_name,
  slugify,
}
use payment_service.Migrations.Sequence.{
  AtMost, max_from-AtMost, number_of-file_name, following-pos,
}

abbrev pub path_of : ℕ → String → String → String
path_of n name direction = migrations_dir <> "/" <> file_name (pos n) (slugify name) direction

numbered :
    {W : Type 0} (files : Files W) (names : List String) (k : ℕ) (w w1 : W)
    → max_from (pos 0) names ≡ pos k
    → suc k < 2 ^ 63
    → files.read_dir migrations_dir w ≡ (ok (some names), w1)
    → next_sequence files w ≡ (ok (pos (suc k)), w1)
unfolding next_sequence
numbered files names k w w1 largest small read =
    rw (next_sequence, read)
      (ap (λ m. (ok (add64 m (pos 1)), w1)) largest ∙ ap (λ n. (ok n, w1)) (following-pos k small))

looped :
    {W : Type 0} (files : Files W) (name : String) (n : ℕ) (w2 w3 w4 : W)
    → files.write_file (path_of n name "up") "" w2 ≡ (ok tt, w3)
    → files.write_file (path_of n name "down") "" w3 ≡ (ok tt, w4)
    → write_all files (pos n) (slugify name) [] ("up" ∷ "down" ∷ []) w2
      ≡ ((path_of n name "up" ∷ path_of n name "down" ∷ [], none), w4)
looped files name n w2 w3 w4 up down =
    let both : files.write_file (path_of n name "down") ""
          (files.write_file (path_of n name "up") "" w2).1
        ≡ (ok tt, w4) =
      ap (λ o. files.write_file (path_of n name "down") "" o.1) up ∙ down in
    rw (write_all, up, both)
      (ap (λ o. ((path_of n name "up" ∷ path_of n name "down" ∷ [], none), o.1)) both)

written-both :
    {W : Type 0} (files : Files W) (name : String) (n : ℕ) (w1 w2 w3 w4 : W)
    → files.mkdir_all migrations_dir w1 ≡ (ok tt, w2)
    → files.write_file (path_of n name "up") "" w2 ≡ (ok tt, w3)
    → files.write_file (path_of n name "down") "" w3 ≡ (ok tt, w4)
    → written files (slugify name) (ok (pos n), w1)
      ≡ ((path_of n name "up" ∷ path_of n name "down" ∷ [], none), w4)
written-both files name n w1 w2 w3 w4 made up down =
    rw (written, made, wrap_error, made, add_text) (looped files name n w2 w3 w4 up down)

-- Create of a name whose slug is not empty, in a directory whose largest number is k, below 2 ^ 63
-- - 1, with calls of os that succeed: it makes the directory and then writes the up file and the
-- down file, both empty, and nothing else, and returns their paths; nextSequence reads both names
-- as k + 1, and the name of each file that was there as at most k.
pub create_lem :
    {W : Type 0} (files : Files W) (name : String) (names : List String) (k : ℕ) (w w1 w2 w3 w4 : W)
    → str_eq (slugify name) "" ≡ false
    → max_from (pos 0) names ≡ pos k
    → suc k < 2 ^ 63
    → files.read_dir migrations_dir w ≡ (ok (some names), w1)
    → files.mkdir_all migrations_dir w1 ≡ (ok tt, w2)
    → files.write_file (path_of (suc k) name "up") "" w2 ≡ (ok tt, w3)
    → files.write_file (path_of (suc k) name "down") "" w3 ≡ (ok tt, w4)
    → (create files name w
        ≡ ((path_of (suc k) name "up" ∷ path_of (suc k) name "down" ∷ [], none), w4))
      × (number_of (file_name (pos (suc k)) (slugify name) "up") ≡ some (pos (suc k)))
      × (number_of (file_name (pos (suc k)) (slugify name) "down") ≡ some (pos (suc k)))
      × All (AtMost (pos k)) names
unfolding create
create_lem files name names k w w1 w2 w3 w4 named largest small read made up down = (
  rw named (
      ap (written files (slugify name)) (numbered files names k w w1 largest small read)
      ∙ written-both files name (suc k) w1 w2 w3 w4 made up down),
  number_of-file_name (suc k) name "up" small (inl refl),
  number_of-file_name (suc k) name "down" small (inr refl),
  rw (← largest) (max_from-AtMost (pos 0) names),
)
