-- ===== src/Schedule.antt =====
-- The dates of src/app/business/services/scheduler_service.py: the constants and the functions above
-- `class SchedulerService`.
pub mod Days
pub mod Weekdays
pub mod Occurrence
pub mod Visits
use python_workflow_service.Prelude.{
  ℕ, zero, suc, ◌+◌, String, Bool, true, false, not, ◌&&◌, ◌||◌, Option, none, some, List, [], ◌∷◌,
  ℤ, pos, negsuc, pos_part, ltb, leb, ◌==◌, if◌then◌else◌, is_some, get_or_else, lookup, any,
}
use python_workflow_service.Prelude.Text.{prefix, strip, lower, int_of_text}
use python_workflow_service.Calendar.{
  Date, date_ltb, date_leb, date_max, add_days, add_months, isoweekday, replace_day,
}
use python_workflow_service.Calendar.Iso.{fromisoformat}
use python_workflow_service.Value.{
  Value, null, bool, num, str, enum, seq, items, Items, truthy, py_str, or_default,
}
use python_workflow_service.Value.Dict.{Row, get}

abbrev pub default_lead_days : ℕ
default_lead_days = 5

abbrev pub recurring_lead_days : ℕ
recurring_lead_days = 5

abbrev pub day_steps : List (String × ℕ)
day_steps = ("daily", 1) ∷ ("weekly", 7) ∷ ("fortnightly", 14) ∷ []

abbrev pub month_steps : List (String × ℕ)
month_steps = ("monthly", 1) ∷ ("quarterly", 3) ∷ ("half_yearly", 6) ∷ ("yearly", 12) ∷ []

abbrev pub weekday_frequencies : List (String × ℕ)
weekday_frequencies = ("weekly", 0) ∷ ("fortnightly", 0) ∷ []

abbrev pub max_visits : ℕ
max_visits = 1000

abbrev pub horizon_days : ℕ
horizon_days = 1830

abbrev weekday_names : List (String × ℕ)
weekday_names =
    ("mon", 1)
    ∷ ("monday", 1)
    ∷ ("tue", 2)
    ∷ ("tuesday", 2)
    ∷ ("wed", 3)
    ∷ ("wednesday", 3)
    ∷ ("thu", 4)
    ∷ ("thursday", 4)
    ∷ ("fri", 5)
    ∷ ("friday", 5)
    ∷ ("sat", 6)
    ∷ ("saturday", 6)
    ∷ ("sun", 7)
    ∷ ("sunday", 7)
    ∷ []

-- `_parse_d`.
unfoldable pub parse_d : Value → Option Date
parse_d value = if truthy value then fromisoformat (prefix 10 (py_str value)) else none

-- `int(v)`; `none` is `TypeError` or `ValueError`.
unfoldable pub int_of : Value → Option ℤ
int_of (num z) = some z
int_of (bool b) = some (pos (if b then 1 else 0))
int_of (str s) = int_of_text s
int_of (enum s) = int_of_text s
int_of _ = none

-- What one entry of `raw` adds to `out`.
unfoldable pub day_number : Value → Option ℤ
unfolding int_of py_str
day_number v = elim (int_of v) [
  | some z ↦ some z
  | none ↦ elim (lookup (lower (strip (py_str v))) weekday_names) [
    | none ↦ none
    | some n ↦ some (pos n)
  ]
]

-- A set of numbers, as the sorted list of its members.
unfoldable pub insert_day : ℕ → List ℕ → List ℕ
insert_day n [] = n ∷ []
insert_day n (m ∷ ms) =
    let rest = insert_day n ms in
    if ltb n m then n ∷ m ∷ ms else (if n == m then m ∷ ms else m ∷ rest)

-- `min(max(value, low), high)`, and nothing for a value out of the range.
unfoldable pub add_day : ℕ → ℕ → Option ℤ → List ℕ → List ℕ
add_day low high (some (pos n)) days = if leb low n && leb n high then insert_day n days else days
add_day low high _ days = days

unfoldable pub collect_days : ℕ → ℕ → List Value → List ℕ
collect_days low high [] = []
collect_days low high (v ∷ vs) = add_day low high (day_number v) (collect_days low high vs)

abbrev pub is_weekday_frequency : String → Bool
is_weekday_frequency frequency = is_some (lookup frequency weekday_frequencies)

abbrev pub entries : Value → List Value
entries (seq vs) = items vs
entries _ = []

-- `_normalize_days`.
unfoldable pub normalize_days : Value → String → List ℕ
normalize_days raw frequency =
    collect_days 1 (if is_weekday_frequency frequency then 7 else 28) (entries raw)

abbrev pub has_day : ℕ → List ℕ → Bool
has_day n = any (λ m. m == n)

-- The loop of `next_occurrence` over the offsets left.
unfoldable pub first_weekday : ℕ → ℕ → Date → List ℕ → Option Date
first_weekday zero offset after days = none
first_weekday (suc rounds) offset after days =
    let rest = first_weekday rounds (offset + 1) after days in
    let candidate = add_days offset after in
    if has_day (isoweekday candidate) days then some candidate else rest

-- The weekly and fortnightly branch of `next_occurrence`.
unfoldable pub next_weekday : Date → ℕ → List ℕ → Date
next_weekday after span [] = add_days span after
next_weekday after span (n ∷ days) =
    get_or_else (first_weekday span 1 after (n ∷ days)) (add_days span after)

-- The rest of `next_occurrence`; the days are sorted, so the head is their minimum.
unfoldable pub next_month_day : Date → ℕ → List ℕ → Date
next_month_day after months [] = add_months after months
next_month_day after months (n ∷ days) =
    let nxt = add_months after months in
    let candidate = replace_day nxt n in
    if date_leb candidate after then replace_day (add_months nxt 1) n else candidate

-- `next_occurrence`.
unfoldable pub next_occurrence : Date → String → Value → Date
next_occurrence after frequency days =
    let days_n = normalize_days days frequency in
    if is_weekday_frequency frequency
    then next_weekday after (get_or_else (lookup frequency day_steps) 7) days_n
    else next_month_day after (get_or_else (lookup frequency month_steps) 1) days_n

-- `_step`.
unfoldable pub step : Date → String → Date
step day frequency = elim (lookup frequency day_steps) [
  | some n ↦ add_days n day
  | none ↦ add_months day (get_or_else (lookup frequency month_steps) 3)
]

-- `_lead_days`; the column holds integers or NULL.
unfoldable pub lead_days : Row → ℕ
unfolding get
lead_days contract = elim (get contract "auto_generate_lead_days") [
  | num z ↦ pos_part z
  | _ ↦ default_lead_days
]

-- `end is not None and visit > end`.
abbrev pub past_end : Option Date → Date → Bool
past_end none visit = false
past_end (some end) visit = date_ltb end visit

-- The loop of `_iter_visit_dates`, with the rounds left.
unfoldable pub visits_from : ℕ → Option Date → Date → String → Date → List Date
visits_from zero end horizon frequency visit = []
visits_from (suc rounds) end horizon frequency visit =
    let rest = visits_from rounds end horizon frequency (step visit frequency) in
    if past_end end visit || date_ltb horizon visit then [] else visit ∷ rest

-- The date that the loop starts from.
unfoldable pub first_visit : Date → Option Date → String → Date
first_visit start none frequency = start
first_visit start (some last) frequency = step (date_max start last) frequency

-- `contract.get("visit_frequency") or "quarterly"`.
unfoldable pub visit_frequency : Row → String
unfolding get py_str
visit_frequency contract = py_str (or_default (get contract "visit_frequency") (str "quarterly"))

-- `_iter_visit_dates`: what the generator yields, in order.
unfoldable pub iter_visit_dates : Row → Date → List Date
iter_visit_dates contract today = elim (parse_d (get contract "start_date")) [
  | none ↦ []
  | some start ↦
      let frequency = visit_frequency contract in
      let visit = first_visit start (parse_d (get contract "last_serviced_date")) frequency in
      let horizon = add_days horizon_days today in
      visits_from max_visits (parse_d (get contract "end_date")) horizon frequency visit
]
