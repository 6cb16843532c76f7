-- ===== src/Json.antt =====
-- What the services use of encoding/json: a message body is kept as the document that it parses to.
-- Keys are compared as they are written (Go also accepts them in another case).
use payment_service.Base.{
  Bool, true, false, Option, none, some, String, List, [], ◌∷◌, Error, other, str_eq, if◌then◌else◌,
}
use payment_service.Base.Int.{ℤ}

-- `other_value` is a Boolean, an array, an object or a number that is no int64.
pub data Value : Type 0 where
  text : String → Value
  number : ℤ → Value
  null other_value : Value

-- `no_object` is a text that is no JSON, or a document that is neither an object nor null.
pub data Body : Type 0 where
  object : List (String × Value) → Body
  null_body : Body
  no_object : String → Body

-- A struct's field after the keys that were read so far, and whether all of them fitted it.
abbrev pub read_text : Value → String × Bool → String × Bool
read_text (text s) (old, fits) = (s, fits)
read_text (number n) (old, fits) = (old, false)
read_text null (old, fits) = (old, fits)
read_text other_value (old, fits) = (old, false)

abbrev pub read_number : Value → ℤ × Bool → ℤ × Bool
read_number (text s) (old, fits) = (old, false)
read_number (number n) (old, fits) = (n, fits)
read_number null (old, fits) = (old, fits)
read_number other_value (old, fits) = (old, false)

-- time.Time's UnmarshalJSON on a text.
abbrev pub TimeParser : Type 0
TimeParser = String → Option ℤ

abbrev read_stamp : Option ℤ → ℤ × Bool → ℤ × Bool
read_stamp none (old, fits) = (old, false)
read_stamp (some t) (old, fits) = (t, fits)

abbrev pub read_time : TimeParser → Value → ℤ × Bool → ℤ × Bool
read_time parse (text s) seen = read_stamp (parse s) seen
read_time parse (number n) (old, fits) = (old, false)
read_time parse null seen = seen
read_time parse other_value (old, fits) = (old, false)

-- A struct's field of that name, after all keys: a later one overwrites an earlier one.
unfoldable pub field :
    {A : Type 0}
    → (Value → A × Bool → A × Bool)
    → String
    → List (String × Value)
    → A × Bool
    → A × Bool
field read name [] seen = seen
field read name ((k, v) ∷ fields) seen =
    field read name fields (if str_eq k name then read v seen else seen)

abbrev pub json_error : Error
json_error = other "json: cannot unmarshal"

-- json.Unmarshal into a struct whose one field is tagged "id": the field's value and the error. A
-- key of another kind leaves the field alone and is reported at the end.
unfoldable pub unmarshal_id : Body → String × Bool
unfolding field
unmarshal_id (object fields) = field read_text "id" fields ("", true)
unmarshal_id null_body = ("", true)
unmarshal_id (no_object s) = ("", false)
