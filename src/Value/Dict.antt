-- ===== src/Value/Dict.antt =====
-- `dict[str, Any]` as an association list, in insertion order: `get`, `in`, item assignment, `pop`,
-- `setdefault` and `{**a, **b}`, with the laws of reading what was written.
use python_workflow_service.Prelude.{
  String, ◌≡◌, refl, Bool, true, false, List, [], ◌∷◌, arith, str_eq, eq_iff, if◌then◌else◌,
}
use python_workflow_service.Value.{Value, null, Fields, end, field}

abbrev pub Row : Type 0
Row = List (String × Value)

-- `d.get(k)`, and `d[k]` where the key is known to be there.
unfoldable pub get : Row → String → Value
get [] k = null
get ((j, v) ∷ d) k = if str_eq j k then v else get d k

-- `k in d`.
unfoldable pub has_key : Row → String → Bool
has_key [] k = false
has_key ((j, v) ∷ d) k = if str_eq j k then true else has_key d k

-- `d[k] = v`.
unfoldable pub insert : String → Value → Row → Row
insert k v [] = (k, v) ∷ []
insert k v ((j, w) ∷ d) = if str_eq j k then (j, v) ∷ d else (j, w) ∷ insert k v d

-- `d.pop(k, None)`, for what is left of `d`.
unfoldable pub erase : String → Row → Row
erase k [] = []
erase k ((j, v) ∷ d) = let rest = erase k d in if str_eq j k then rest else (j, v) ∷ rest

-- `{**base, **extra}`.
unfoldable pub merge : Row → Row → Row
unfolding insert
merge base [] = base
merge base ((k, v) ∷ extra) = merge (insert k v base) extra

-- `d.setdefault(k, v)`.
unfoldable pub set_default : String → Value → Row → Row
unfolding has_key insert
set_default k v d = if has_key d k then d else insert k v d

abbrev pub fields_of : Row → Fields
fields_of [] = end
fields_of ((k, v) ∷ d) = field k v (fields_of d)

pub get-insert :
    (k j : String) (v : Value) (d : Row)
    → get (insert k v d) j ≡ (if str_eq k j then v else get d j)
unfolding get insert
get-insert k j v [] = refl
get-insert k j v ((i, w) ∷ d) =
    ground (arith, eq_iff k j, eq_iff i k, eq_iff i j, get-insert k j v d)

pub has_key-insert :
    (k j : String) (v : Value) (d : Row)
    → has_key (insert k v d) j ≡ (if str_eq k j then true else has_key d j)
unfolding has_key insert
has_key-insert k j v [] = refl
has_key-insert k j v ((i, w) ∷ d) =
    ground (arith, eq_iff k j, eq_iff i k, eq_iff i j, has_key-insert k j v d)

-- The last of the writes to a key, of a list of writes.
unfoldable pub last_write : Row → String → Value → Value
last_write [] j v = v
last_write ((k, w) ∷ d) j v = last_write d j (if str_eq k j then w else v)

pub get-merge :
    (base extra : Row) (j : String) → get (merge base extra) j ≡ last_write extra j (get base j)
unfolding merge last_write
get-merge base [] j = refl
get-merge base ((k, v) ∷ extra) j =
    rw (get-merge (insert k v base) extra j) (rw (get-insert k j v base) refl)

-- A key that is not written keeps its value.
pub last_write_absent :
    (d : Row) (j : String) (v : Value) → has_key d j ≡ false → last_write d j v ≡ v
unfolding last_write has_key
last_write_absent [] j v h = refl
last_write_absent ((k, w) ∷ d) j v h = ground (arith, last_write_absent d j v)
