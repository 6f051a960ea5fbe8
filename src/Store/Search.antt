-- ===== src/Store/Search.antt =====
-- `column.ilike(f"%{search.strip()}%")`: the pattern match of the searches of src/app/crud. In a
-- pattern `%` stands for any text, `_` for one character, and `\` takes the next character literally.
use Prim.Native.Char.{Char, code}
use Prim.Native.String.{String, [], ◌∷◌, ◌++◌ as str_append}
use python_workflow_service.Prelude.{Bool, true, false, ◌&&◌, ◌||◌, ◌==◌, if◌then◌else◌}
use python_workflow_service.Prelude.Text.{strip, lower, is_empty}
use python_workflow_service.Value.{py_str, is_none}
use python_workflow_service.Value.Dict.{Row, get}

-- Some end of the text meets the test.
abbrev pub any_suffix : (String → Bool) → String → Bool
any_suffix p [] = p []
any_suffix p (c ∷ s) = p (c ∷ s) || any_suffix p s

-- The text starts with a character that meets the test, and its rest meets the other.
abbrev pub after_char : (Char → Bool) → (String → Bool) → String → Bool
after_char p rest [] = false
after_char p rest (c ∷ s) = p c && rest s

abbrev pub same_char : Char → Char → Bool
same_char c d = code c == code d

-- Whether the pattern matches the whole text; the flag tells that its first character is taken
-- literally.
unfoldable pub matches_from : Bool → String → String → Bool
matches_from literal [] s = is_empty s
matches_from true (p ∷ pattern) s = after_char (same_char p) (matches_from false pattern) s
matches_from false (p ∷ pattern) s =
    let rest = matches_from false pattern in
    let escaped = matches_from true pattern s in
    if code p == 37
    then any_suffix rest s
    else (if code p == 95
        then after_char (λ c. true) rest s
        else (if code p == 92 then escaped else after_char (same_char p) rest s))

-- `ilike`.
unfoldable pub ilike : String → String → Bool
unfolding matches_from
ilike s pattern = matches_from false (lower pattern) (lower s)

-- The filter of a search for a term, on one column.
unfoldable pub column_matches : String → Row → String → Bool
unfolding ilike get py_str
column_matches term r column =
    if is_none (get r column)
    then false
    else ilike (py_str (get r column)) (str_append "%" (str_append (strip term) "%"))
