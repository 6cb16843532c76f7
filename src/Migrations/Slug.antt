-- ===== src/Migrations/Slug.antt =====
-- What slugify of internal/database/migrate/runner.go makes of a name.
use Prim.Native.Char.{Char, code}
use payment_service.Base.{
  ◌≡◌, refl, ◌⊎◌, inl, inr, Bool, Bool-cases, true, false, String, arith, if◌then◌else◌,
}
use payment_service.Base.Text.{is_empty, to_lower, trim_space}
use payment_service.Migrations.{
  is_alnum, is_underscore, replace_runs, trim_left, trim_right, slugify,
}

-- Letters and digits, with single underscores in between. The flag tells that no underscore may come.
abbrev Clean : Bool → String → Type 0
Clean inside String.[] = Unit {0}
Clean inside (String.◌∷◌ c s) =
    ((is_alnum c ≡ true) × Clean false s) ⊎ ((code c ≡ b'_') × (inside ≡ false) × Clean true s)

-- And a letter or digit at its end, if it is not empty.
abbrev pub Words : Bool → String → Type 0
Words inside String.[] = inside ≡ false
Words inside (String.◌∷◌ c s) =
    ((is_alnum c ≡ true) × Words false s) ⊎ ((code c ≡ b'_') × (inside ≡ false) × Words true s)

-- A slug: nothing, or words of letters and digits with single underscores between them.
abbrev pub IsSlug : String → Type 0
IsSlug s = (s ≡ "") ⊎ Words true s

one_underscore :
    (inside : Bool) (rest : String)
    → Clean true rest
    → Clean inside (if inside then rest else String.◌∷◌ "_" rest)
one_underscore true rest h = h
one_underscore false rest h = inr (refl, refl, h)

replace_runs-Clean : (inside : Bool) (s : String) → Clean inside (replace_runs inside s)
unfolding replace_runs
replace_runs-Clean inside String.[] = tt
replace_runs-Clean inside (String.◌∷◌ c s) = elim (Bool-cases (is_alnum c)) [
  | inl yes_alnum ↦ rw yes_alnum (inl (yes_alnum, replace_runs-Clean false s))
  | inr other ↦ rw other (one_underscore inside (replace_runs true s) (replace_runs-Clean true s))
]

Clean-mono : (s : String) → Clean true s → Clean false s
Clean-mono String.[] h = tt
Clean-mono (String.◌∷◌ c s) (inl h) = inl h
Clean-mono (String.◌∷◌ c s) (inr (u, e, h)) = cc e

alnum_ne : (c : Char) → is_alnum c ≡ true → is_underscore c ≡ false
alnum_ne c h = ground arith

underscore : (c : Char) → code c ≡ b'_' → is_underscore c ≡ true
underscore c h = ground arith

trim_left_done : (s : String) → Clean true s → trim_left s ≡ s
unfolding trim_left
trim_left_done String.[] h = refl
trim_left_done (String.◌∷◌ c s) (inl (alnum, h)) = rw (alnum_ne c alnum) refl
trim_left_done (String.◌∷◌ c s) (inr (u, e, h)) = cc e

trim_left-Clean : (s : String) → Clean false s → Clean true (trim_left s)
unfolding trim_left
trim_left-Clean String.[] h = tt
trim_left-Clean (String.◌∷◌ c s) (inl (alnum, h)) = rw (alnum_ne c alnum) (inl (alnum, h))
trim_left-Clean (String.◌∷◌ c s) (inr (u, e, h)) = rw (underscore c u) (rw (trim_left_done s h) h)

kept :
    (inside : Bool) (c : Char) (rest : String)
    → code c ≡ b'_'
    → inside ≡ false
    → Words true rest
    → ((if is_empty rest then "" else String.◌∷◌ c rest) ≡ "")
      ⊎ Words inside (if is_empty rest then "" else String.◌∷◌ c rest)
kept inside c String.[] u e h = inl refl
kept inside c (String.◌∷◌ d rest) u e h = inr (inr (u, e, h))

trim_right-Words :
    (inside : Bool) (s : String)
    → Clean inside s
    → (trim_right s ≡ "") ⊎ Words inside (trim_right s)
unfolding trim_right
trim_right-Words inside String.[] h = inl refl
trim_right-Words inside (String.◌∷◌ c s) (inl (alnum, h)) =
    rw (alnum_ne c alnum) (elim (trim_right-Words false s h) [
      | inl nothing ↦ inr (inl (alnum, rw nothing refl))
      | inr words ↦ inr (inl (alnum, words))
    ])
trim_right-Words inside (String.◌∷◌ c s) (inr (u, e, h)) =
    rw (underscore c u) (elim (trim_right-Words true s h) [
      | inl nothing ↦ rw nothing (inl refl)
      | inr words ↦ kept inside c (trim_right s) u e words
    ])

-- The slug of any name is empty, or words of the letters a to z and digits with single underscores
-- between them: it neither begins nor ends with one.
pub slugify-IsSlug : (name : String) → IsSlug (slugify name)
unfolding slugify
slugify-IsSlug name =
    let runs = replace_runs false (to_lower (trim_space name)) in
    trim_right-Words true (trim_left runs)
      (trim_left-Clean runs (replace_runs-Clean false (to_lower (trim_space name))))
