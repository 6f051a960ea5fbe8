-- ===== src/Prelude/Text.antt =====
-- Python's text operations that the program calls, over the characters of a text: `strip`,
-- `lower`, slicing from the start, `len`, the decimal digits. Only ASCII letters, digits and
-- white space are special.
use Prim.Native.Nat.{ℕ, zero, suc, ◌+◌, ◌-◌, ◌*◌, ◌/◌, ◌%◌, ◌<◌}
use Prim.Native.Char.{Char, code}
use Prim.Native.String.{String, [], ◌∷◌}
use mathlib.Core.Path.{◌≡◌, refl}
use mathlib.Core.Bool.{Bool, ◌&&◌, ◌||◌}
use mathlib.Core.Option.{Option, none, some}
use mathlib.Core.List.{List}
use native.Mathlib.Omega.{arith}
use text.Mathlib.Text.{◌==◌ as str_eq}
use python_workflow_service.Prelude.Int.{ℤ, pos, negsuc}
use python_workflow_service.Prelude.Tests.{leb, ltb, ◌==◌, if◌then◌else◌}

-- `s[:n]`, in characters.
abbrev pub prefix : ℕ → String → String
prefix zero _ = []
prefix (suc n) [] = []
prefix (suc n) (c ∷ s) = c ∷ prefix n s

-- `len(s)`, in characters.
abbrev pub text_length : String → ℕ
text_length [] = 0
text_length (c ∷ s) = suc (text_length s)

abbrev pub is_empty : String → Bool
is_empty s = str_eq s ""

abbrev pub is_space : Char → Bool
is_space c = code c == 32 || (leb 9 (code c) && leb (code c) 13)

abbrev pub strip_left : String → String
strip_left [] = []
strip_left (c ∷ s) = let rest = strip_left s in if is_space c then rest else c ∷ s

-- A character is dropped from the end if it is white space and nothing is left behind it.
abbrev pub strip_right : String → String
strip_right [] = []
strip_right (c ∷ s) =
    let rest = strip_right s in if is_space c && is_empty rest then [] else c ∷ rest

abbrev pub strip : String → String
strip s = strip_right (strip_left s)

-- `s.endswith(suffix)`.
abbrev pub ends_with : String → String → Bool
ends_with [] suffix = is_empty suffix
ends_with (c ∷ s) suffix = str_eq (c ∷ s) suffix || ends_with s suffix

abbrev pub char_or : Char → String → ℕ → Char
char_or d [] _ = d
char_or d (c ∷ s) zero = c
char_or d (c ∷ s) (suc n) = char_or d s n

abbrev pub lower_char : Char → Char
lower_char c =
    if leb b'A' (code c) && leb (code c) b'Z'
    then char_or c "abcdefghijklmnopqrstuvwxyz" (code c - b'A')
    else c

abbrev pub lower : String → String
lower [] = []
lower (c ∷ s) = lower_char c ∷ lower s

abbrev pub digit : ℕ → Char
digit n = char_or "9" "0123456789" n

abbrev pub digit_of : Char → Option ℕ
digit_of c = if leb b'0' (code c) && leb (code c) b'9' then some (code c - b'0') else none

pub digit_of-digit : (n : ℕ) → n < 10 → digit_of (digit n) ≡ some n
digit_of-digit zero h = refl
digit_of-digit (suc zero) h = refl
digit_of-digit (suc (suc zero)) h = refl
digit_of-digit (suc (suc (suc zero))) h = refl
digit_of-digit (suc (suc (suc (suc zero)))) h = refl
digit_of-digit (suc (suc (suc (suc (suc zero))))) h = refl
digit_of-digit (suc (suc (suc (suc (suc (suc zero)))))) h = refl
digit_of-digit (suc (suc (suc (suc (suc (suc (suc zero))))))) h = refl
digit_of-digit (suc (suc (suc (suc (suc (suc (suc (suc zero)))))))) h = refl
digit_of-digit (suc (suc (suc (suc (suc (suc (suc (suc (suc zero))))))))) h = refl
digit_of-digit (suc (suc (suc (suc (suc (suc (suc (suc (suc (suc n)))))))))) h =
    absurd (omega arith)

-- `str(n)`, with the digits left to print as fuel.
abbrev pub decimal_from : ℕ → ℕ → String → String
decimal_from zero n acc = acc
decimal_from (suc fuel) n acc =
    let rest = decimal_from fuel (n / 10) (digit (n % 10) ∷ acc) in
    if ltb n 10 then digit n ∷ acc else rest

abbrev pub decimal : ℕ → String
decimal n = decimal_from (suc n) n []

-- The value of a non-empty run of digits.
abbrev pub digits_value : ℕ → String → Option ℕ
digits_value acc [] = some acc
digits_value acc (c ∷ s) = elim (digit_of c) [
  | none ↦ none
  | some d ↦ digits_value (acc * 10 + d) s
]

-- `int(s)`: `none` is `ValueError`. Python also reads `_` between digits, which is not modelled.
abbrev unsigned : String → Option ℕ
unsigned [] = none
unsigned (c ∷ s) = digits_value 0 (c ∷ s)

abbrev signed : String → Option ℤ
signed [] = none
signed (c ∷ s) =
    if code c == b'-'
    then elim (unsigned s) [
      | none ↦ none
      | some n ↦ some (if n == 0 then pos 0 else negsuc (n - 1))
    ]
    else (if code c == b'+'
        then elim (unsigned s) [ none ↦ none | some n ↦ some (pos n) ]
        else elim (unsigned (c ∷ s)) [ none ↦ none | some n ↦ some (pos n) ])

abbrev pub int_of_text : String → Option ℤ
int_of_text s = signed (strip s)

abbrev pub onto_first : Char → List String → List String
onto_first c List.[] = List.◌∷◌ (c ∷ []) List.[]
onto_first c (List.◌∷◌ word words) = List.◌∷◌ (c ∷ word) words

-- `s.split(".")`.
unfoldable pub split_dots : String → List String
split_dots [] = List.◌∷◌ [] List.[]
split_dots (c ∷ s) =
    let words = split_dots s in if code c == 46 then List.◌∷◌ [] words else onto_first c words
