-- ===== src/Base/Text.antt =====
-- What the services use of Go's strings, strconv and fmt packages.
pub mod Decimal
use Prim.Native.Char.{Char, code}
use payment_service.Base.{
  ℕ, zero, suc, ◌+◌, ◌-◌, ◌*◌, ◌^◌, Option, none, some, str_eq, string_discrete, ◌/◌, ◌%◌, ◌≡◌,
  refl, Bool, true, false, ◌&&◌, ◌||◌, String, ◌<>◌, leb, ltb, ◌==◌, if◌then◌else◌,
}
use payment_service.Base.Int.{ℤ, pos, negsuc}

-- unicode.IsSpace, by code point
is_space : ℕ → Bool
is_space c =
    (leb 9 c && leb c 13)
    || c == 32
    || c == 0x85
    || c == 0xa0
    || c == 0x1680
    || (leb 0x2000 c && leb c 0x200a)
    || c == 0x2028
    || c == 0x2029
    || c == 0x202f
    || c == 0x205f
    || c == 0x3000

abbrev pub is_empty : String → Bool
is_empty String.[] = true
is_empty (String.◌∷◌ c s) = false

trim_left : String → String
trim_left String.[] = ""
trim_left (String.◌∷◌ c s) = if is_space (code c) then trim_left s else String.◌∷◌ c s

trim_right : String → String
trim_right String.[] = ""
trim_right (String.◌∷◌ c s) =
    let rest = trim_right s in if is_space (code c) && is_empty rest then "" else String.◌∷◌ c rest

-- strings.TrimSpace
unfoldable pub trim_space : String → String
unfolding is_space trim_left trim_right
trim_space s = trim_right (trim_left s)

-- The character at the place where the first text has `c`.
counterpart : String → String → Char → Char
counterpart (String.◌∷◌ a from) (String.◌∷◌ b to) c =
    if code a == code c then b else counterpart from to c
counterpart _ _ c = c

abbrev upper_case : String
upper_case = "ABCDEFGHIJKLMNOPQRSTUVWXYZ"

abbrev lower_case : String
lower_case = "abcdefghijklmnopqrstuvwxyz"

abbrev map_chars : (Char → Char) → String → String
map_chars f String.[] = ""
map_chars f (String.◌∷◌ c s) = String.◌∷◌ (f c) (map_chars f s)

-- strings.ToLower, as far as its result is ASCII: two more characters have a lower case there.
unfoldable pub to_lower : String → String
unfolding counterpart
to_lower s = map_chars (counterpart (upper_case <> "İK") (lower_case <> "ik")) s

-- strings.EqualFold with an ASCII text: two more characters fold to ASCII letters.
unfoldable pub equal_fold : String → String → Bool
unfolding counterpart
equal_fold s t =
    let fold = map_chars (counterpart (upper_case <> "ſK") (lower_case <> "sk")) in
    str_eq (fold s) (fold t)

-- The value of decimal digits after `n`.
unfoldable pub digits_value : ℕ → String → Option ℕ
digits_value n String.[] = some n
digits_value n (String.◌∷◌ c s) =
    let rest = digits_value (n * 10 + (code c - b'0')) s in
    if leb b'0' (code c) && leb (code c) b'9' then rest else none

abbrev pub unsigned : String → Option ℕ
unsigned String.[] = none
unsigned s = digits_value 0 s

abbrev pub positive : Option ℕ → Option ℤ
positive none = none
positive (some n) = if ltb n (2 ^ 63) then some (pos n) else none

abbrev pub negative : Option ℕ → Option ℤ
negative none = none
negative (some zero) = some (pos 0)
negative (some (suc n)) = if ltb n (2 ^ 63) then some (negsuc n) else none

-- strconv.Atoi: `none` is its error, for another text than a sign and digits or out of int64.
unfoldable pub atoi : String → Option ℤ
unfolding digits_value
atoi String.[] = none
atoi (String.◌∷◌ c s) =
    if code c == b'-'
    then negative (unsigned s)
    else if code c == b'+'
    then positive (unsigned s)
    else positive (unsigned (String.◌∷◌ c s))

abbrev pub digit : ℕ → String
digit d =
    if d == 0
    then "0"
    else if d == 1
    then "1"
    else if d == 2
    then "2"
    else if d == 3
    then "3"
    else if d == 4
    then "4"
    else if d == 5
    then "5"
    else if d == 6
    then "6"
    else if d == 7
    then "7"
    else if d == 8
    then "8"
    else "9"

-- A number has fewer digits than its successor has units.
unfoldable pub digits : ℕ → ℕ → String
digits zero n = ""
digits (suc f) n =
    let front = digits f (n / 10) in if ltb n 10 then digit n else front <> digit (n % 10)

-- The verb %d of fmt.Sprintf.
unfoldable pub decimal : ℤ → String
unfolding digits
decimal (pos n) = digits (suc n) n
decimal (negsuc n) = "-" <> digits (suc (suc n)) (suc n)

decimal_status : decimal (pos 503) ≡ "503"
unfolding decimal
decimal_status = refl

decimal_negative : decimal (negsuc 9) ≡ "-10"
unfolding decimal
decimal_negative = refl

trim_both : trim_space " a b\n" ≡ "a b"
unfolding trim_space
trim_both = refl

to_lower_ascii : (to_lower "Created_AT" ≡ "created_at") × (to_lower "İd" ≡ "id")
unfolding to_lower
to_lower_ascii = (refl, refl)

equal_fold_ascii : (equal_fold "aSc" "asc" ≡ true) × (equal_fold "as" "asc" ≡ false)
unfolding equal_fold string_discrete
equal_fold_ascii = (refl, refl)

atoi_values :
    (atoi "42" ≡ some (pos 42))
    × (atoi "-7" ≡ some (negsuc 6))
    × (atoi "+0" ≡ some (pos 0))
    × (atoi "" ≡ none)
    × (atoi "1x" ≡ none)
    × (atoi "9223372036854775808" ≡ none)
    × (atoi "-9223372036854775808" ≡ some (negsuc (2 ^ 63 - 1)))
unfolding atoi
atoi_values = (refl, refl, refl, refl, refl, refl, refl)
