-- ===== src/Value.antt =====
-- Python values as the services pass them: what a `dict[str, Any]` of a request or of a row holds.
-- A member of a `str` enum is `enum` with its value. The `float` and `Decimal` types do not occur
-- in the tables and are left out, and so are nested tuples.
pub mod Dict
pub mod Safe
use Prim.Native.String.{◌++◌ as str_append}
use python_workflow_service.Prelude.{
  ℕ, zero, suc, ◌*◌, ◌/◌, ◌%◌, String, Bool, true, false, not, ◌&&◌, List, [], ◌∷◌, ℤ, pos, negsuc,
  int_eq, str_eq, ◌==◌, if◌then◌else◌,
}
use python_workflow_service.Prelude.Text.{decimal, digit, is_empty}
use python_workflow_service.Calendar.{Date, date_eq}
use python_workflow_service.Calendar.Iso.{isoformat}

-- An aware `datetime` in UTC.
pub record Instant : Type 0 where
  pub on_date : Date
  pub hour : ℕ
  pub minute : ℕ
  pub second : ℕ
  pub microsecond : ℕ

mutual
  pub data Value : Type 0 where
    null : Value
    bool : Bool → Value
    num : ℤ → Value
    str : String → Value
    enum : String → Value
    on : Date → Value
    at : Instant → Value
    seq : Items → Value
    obj : Fields → Value

  pub data Fields : Type 0 where
    end : Fields
    field : String → Value → Fields → Fields

  pub data Items : Type 0 where
    nil : Items
    cons : Value → Items → Items

abbrev pub items : Items → List Value
items nil = []
items (cons v vs) = v ∷ items vs

abbrev pub items_of : List Value → Items
items_of [] = nil
items_of (v ∷ vs) = cons v (items_of vs)

-- `bool(v)`.
abbrev pub truthy : Value → Bool
truthy null = false
truthy (bool b) = b
truthy (num z) = not (int_eq z (pos 0))
truthy (str s) = not (is_empty s)
truthy (enum s) = not (is_empty s)
truthy (on _) = true
truthy (at _) = true
truthy (seq nil) = false
truthy (seq (cons _ _)) = true
truthy (obj end) = false
truthy (obj (field _ _ _)) = true

-- `v or d`.
abbrev pub or_default : Value → Value → Value
or_default v d = if truthy v then v else d

abbrev pub is_none : Value → Bool
is_none null = true
is_none _ = false

-- The value is the text `s`: `v == s`, for a `str` or a member of a `str` enum.
abbrev pub is_text : Value → String → Bool
is_text (str t) s = str_eq t s
is_text (enum t) s = str_eq t s
is_text _ _ = false

abbrev two_digits : ℕ → String
two_digits n = String.◌∷◌ (digit (n / 10 % 10)) (String.◌∷◌ (digit (n % 10)) "")

abbrev six_digits : ℕ → String
six_digits n =
    str_append (two_digits (n / 10000)) (str_append (two_digits (n / 100)) (two_digits n))

-- `datetime.isoformat`, which drops the microseconds where they are 0.
unfoldable pub instant_isoformat : Instant → String
unfolding isoformat
instant_isoformat t =
    let fraction = if t.microsecond == 0 then "" else str_append "." (six_digits t.microsecond) in
    str_append (isoformat t.on_date) (
      str_append "T" (
        str_append (two_digits t.hour) (
          str_append ":" (
            str_append (two_digits t.minute)
              (str_append ":" (str_append (two_digits t.second) (str_append fraction "+00:00")))))))

-- `str(v)`. It is not taken of an enum member, a list or a dict.
unfoldable pub py_str : Value → String
unfolding isoformat instant_isoformat
py_str null = "None"
py_str (bool true) = "True"
py_str (bool false) = "False"
py_str (num (pos n)) = decimal n
py_str (num (negsuc n)) = str_append "-" (decimal (suc n))
py_str (str s) = s
py_str (enum s) = s
py_str (on d) = isoformat d
py_str (at t) = instant_isoformat t
py_str (seq _) = ""
py_str (obj _) = ""

abbrev instant_eq : Instant → Instant → Bool
instant_eq s t =
    date_eq s.on_date t.on_date
    && s.hour == t.hour
    && s.minute == t.minute
    && s.second == t.second
    && s.microsecond == t.microsecond

abbrev bool_int : Bool → ℤ
bool_int true = pos 1
bool_int false = pos 0

abbrev same_text : Value → String → Bool
same_text v s = is_text v s

abbrev same_int : Value → ℤ → Bool
same_int (num y) z = int_eq y z
same_int (bool b) z = int_eq (bool_int b) z
same_int _ _ = false

abbrev same_date : Value → Date → Bool
same_date (on e) d = date_eq e d
same_date _ _ = false

abbrev same_instant : Value → Instant → Bool
same_instant (at u) t = instant_eq u t
same_instant _ _ = false

abbrev pub find_field : String → Fields → Value
find_field k end = null
find_field k (field j v r) = if str_eq j k then v else find_field k r

abbrev pub has_field : String → Fields → Bool
has_field k end = false
has_field k (field j v r) = if str_eq j k then true else has_field k r

abbrev fields_count : Fields → ℕ
fields_count end = 0
fields_count (field _ _ r) = suc (fields_count r)

-- `v == w`. A `bool` is an `int`, an enum member is its text, dicts compare without order.
unfoldable mutual
  pub value_eq : Value → Value → Bool
  value_eq null w = is_none w
  value_eq (bool b) w = same_int w (bool_int b)
  value_eq (num z) w = same_int w z
  value_eq (str s) w = same_text w s
  value_eq (enum s) w = same_text w s
  value_eq (on d) w = same_date w d
  value_eq (at t) w = same_instant w t
  value_eq (seq vs) (seq ws) = items_eq vs ws
  value_eq (seq _) _ = false
  value_eq (obj r) (obj s) = fields_count r == fields_count s && fields_in r s
  value_eq (obj _) _ = false

  pub items_eq : Items → Items → Bool
  items_eq nil nil = true
  items_eq (cons v vs) (cons w ws) = value_eq v w && items_eq vs ws
  items_eq _ _ = false

  pub fields_in : Fields → Fields → Bool
  fields_in end s = true
  fields_in (field k v r) s = has_field k s && value_eq v (find_field k s) && fields_in r s
