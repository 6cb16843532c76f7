-- ===== src/Migrations/Sequence.antt =====
-- The numbers of the migration files that Create of internal/database/migrate/runner.go makes.
use Prim.Native.Char.{Char, code}
use text.Mathlib.TextLemmas.{cons-append, nil-append, append-eq-nil_iff}
use mathlib.Core.Path.{subst}
use payment_service.Base.{
  ℕ, zero, suc, ◌+◌, ◌-◌, ◌*◌, ◌^◌, ◌<◌, ◌≡◌, ◌≢◌, refl, ap, sym, ◌∙◌, ◌⊎◌, inl, inr, Bool,
  Bool-cases, true, false, String, ◌<>◌, Option, none, some, List, [], ◌∷◌, ◌++◌, All, arith, ◌==◌,
  string_discrete,
}
use payment_service.Base.Int.{ℤ, pos, add64, ◌+ℤ◌, ◌≤ℤ◌}
use payment_service.Base.Text.{is_empty, decimal, digits_value}
use payment_service.Base.Text.Decimal.{
  digits_value-append, digits_value-digits, atoi_digits, digits-ne-nil, one_char,
}
use payment_service.Payment.Balance.{add64-eq}
use payment_service.Migrations.{
  is_digit, span_digits, any_then_suffix, number_text, number_in, number_of, larger, max_from,
  following, zeros, padded, file_name, count_chars, slugify,
}
use payment_service.Migrations.Slug.{Words, IsSlug, slugify-IsSlug}

-- The number of a name, if it has one, is at most `bound`.
abbrev AtMostIn : ℤ → Option ℤ → Type 0
AtMostIn bound none = Unit {0}
AtMostIn bound (some n) = n ≤ℤ bound

abbrev pub AtMost : ℤ → String → Type 0
AtMost bound name = AtMostIn bound (number_of name)

max_from-le : (max : ℤ) (names : List String) → max ≤ℤ max_from max names
unfolding max_from
max_from-le max [] = omega arith
max_from-le max (name ∷ names) = ground (arith, max_from-le (larger (number_of name) max) names)

AtMost-larger : (max bound : ℤ) (o : Option ℤ) → larger o max ≤ℤ bound → AtMostIn bound o
AtMost-larger max bound none h = tt
AtMost-larger max bound (some n) h = ground arith

pub max_from-AtMost : (max : ℤ) (names : List String) → All (AtMost (max_from max names)) names
unfolding max_from
max_from-AtMost max [] = tt
max_from-AtMost max (name ∷ names) = (
  AtMost-larger max (max_from (larger (number_of name) max) names) (number_of name)
      (max_from-le (larger (number_of name) max) names),
  max_from-AtMost (larger (number_of name) max) names,
)

max_from-append :
    (max : ℤ) (xs ys : List String) → max_from max (xs ++ ys) ≡ max_from (max_from max xs) ys
unfolding max_from
max_from-append max [] ys = refl
max_from-append max (x ∷ xs) ys = max_from-append (larger (number_of x) max) xs ys

zeros_value : (k : ℕ) → digits_value 0 (zeros k) ≡ some 0
unfolding digits_value
zeros_value zero = refl
zeros_value (suc k) = digits_value-append 0 "0" (zeros k) 0 refl ∙ zeros_value k

padded_value : (n : ℕ) → digits_value 0 (padded (pos n)) ≡ some n
unfolding decimal
padded_value n =
    digits_value-append 0 (zeros (6 - count_chars (decimal (pos n)))) (decimal (pos n)) 0
      (zeros_value (6 - count_chars (decimal (pos n))))
    ∙ digits_value-digits (suc n) n (omega arith)

padded-ne-nil : (n : ℕ) → padded (pos n) ≢ ""
unfolding decimal
padded-ne-nil n h =
    digits-ne-nil (suc n) n (omega arith)
      ((append-eq-nil_iff {p = zeros (6 - count_chars (decimal (pos n)))} {q = decimal (pos n)}).0
        h).1

-- Digits end where another character comes.
span_digits-append :
    (m k : ℕ) (s t : String) (c : Char)
    → digits_value m s ≡ some k
    → is_digit c ≡ false
    → span_digits (s <> String.◌∷◌ c t) ≡ (s, String.◌∷◌ c t)
unfolding digits_value span_digits
span_digits-append m k String.[] t c h stop = rw (nil-append (String.◌∷◌ c t)) (rw stop refl)
span_digits-append m k (String.◌∷◌ d s) t c h stop =
    rw (cons-append d s (String.◌∷◌ c t)) (elim (Bool-cases (is_digit d)) [
      | inl digit ↦
          rw (digit, span_digits-append (m * 10 + (code d - b'0')) k s t c (rw digit at h) stop)
            refl
      | inr other ↦ cc (rw other at h)
    ])

abbrev OneLine : String → Type 0
OneLine String.[] = Unit {0}
OneLine (String.◌∷◌ c s) = ((code c == b'\n') ≡ false) × OneLine s

any_then_suffix-append :
    (s t : String) → OneLine s → any_then_suffix t ≡ true → any_then_suffix (s <> t) ≡ true
unfolding any_then_suffix
any_then_suffix-append String.[] t one h = rw (nil-append t) h
any_then_suffix-append (String.◌∷◌ c s) t one h =
    rw (cons-append c s t) (ground (arith, one.0, any_then_suffix-append s t one.1 h))

Words-OneLine : (inside : Bool) (s : String) → Words inside s → OneLine s
Words-OneLine inside String.[] h = tt
Words-OneLine inside (String.◌∷◌ c s) (inl (alnum, h)) = (ground arith, Words-OneLine false s h)
Words-OneLine inside (String.◌∷◌ c s) (inr (u, e, h)) = (ground arith, Words-OneLine true s h)

IsSlug-OneLine : (s : String) → IsSlug s → OneLine s
IsSlug-OneLine s (inl nothing) = subst OneLine (sym nothing) tt
IsSlug-OneLine s (inr words) = Words-OneLine true s words

not_empty : (s : String) → s ≢ "" → is_empty s ≡ false
not_empty String.[] h = absurd (h refl)
not_empty (String.◌∷◌ c s) h = refl

number_text-eq :
    (s t : String) (n : ℕ)
    → digits_value 0 s ≡ some n
    → s ≢ ""
    → any_then_suffix t ≡ true
    → number_text (s <> "_" <> t) ≡ some s
unfolding number_text
number_text-eq s t n h some_digit suffix =
    rw (one_char _ t, span_digits-append 0 n s t _ h refl, not_empty s some_digit, suffix) refl

abbrev pub IsDirection : String → Type 0
IsDirection direction = (direction ≡ "up") ⊎ (direction ≡ "down")

suffixed :
    (direction : String)
    → IsDirection direction
    → any_then_suffix ("." <> direction <> ".sql") ≡ true
unfolding any_then_suffix string_discrete
suffixed direction (inl up) = rw up refl
suffixed direction (inr down) = rw down refl

-- The name of a migration file that Create makes, from a number below 2 ^ 63, the slug of any name and
-- either direction, is read by nextSequence as that number.
pub number_of-file_name :
    (n : ℕ) (name direction : String)
    → n < 2 ^ 63
    → IsDirection direction
    → number_of (file_name (pos n) (slugify name) direction) ≡ some (pos n)
unfolding number_of file_name
number_of-file_name n name direction small dir =
    let slug = slugify name in
    let rest = slug <> "." <> direction <> ".sql" in
    let ending =
      any_then_suffix-append slug ("." <> direction <> ".sql")
        (IsSlug-OneLine slug (slugify-IsSlug name)) (suffixed direction dir) in
    ap number_in (number_text-eq (padded (pos n)) rest n (padded_value n) (padded-ne-nil n) ending)
    ∙ atoi_digits (padded (pos n)) n (padded-ne-nil n) (padded_value n)
    ∙ ground (arith, small)

pub following-pos : (k : ℕ) → suc k < 2 ^ 63 → add64 (pos k) (pos 1) ≡ pos (suc k)
unfolding ◌+ℤ◌
following-pos k small = add64-eq (pos k) (pos 1) (ground arith) ∙ ground arith

twice_larger :
    (k : ℕ) → larger (some (pos (suc k))) (larger (some (pos (suc k))) (pos k)) ≡ pos (suc k)
twice_larger k = ground arith

-- After Create has made the two files of any name, under the number that follows the largest of
-- the files that were there, and if the numbers stay below 2 ^ 63, the largest is that number, and
-- the next Create takes the one after it.
pub following-create :
    (names : List String) (k : ℕ) (name : String)
    → max_from (pos 0) names ≡ pos k
    → suc (suc k) < 2 ^ 63
    → let slug = slugify name in
      let next = following (some names) in
      (next ≡ pos (suc k))
      × (following (some (names ++ (file_name next slug "up" ∷ file_name next slug "down" ∷ [])))
          ≡ pos (suc (suc k)))
unfolding max_from
following-create names k name largest small =
    let slug = slugify name in
    let next = ap (λ m. add64 m (pos 1)) largest ∙ following-pos k (omega arith) in
    let up = number_of-file_name (suc k) name "up" (omega arith) (inl refl) in
    let down = number_of-file_name (suc k) name "down" (omega arith) (inr refl) in
    (
      next,
      rw
          (
            next,
            max_from-append (pos 0) names
                (file_name (pos (suc k)) slug "up" ∷ file_name (pos (suc k)) slug "down" ∷ []),
            largest,
            up,
            down,
          )
          (ap (λ m. add64 m (pos 1)) (twice_larger k) ∙ following-pos (suc k) small),
    )
