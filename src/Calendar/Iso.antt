-- ===== src/Calendar/Iso.antt =====
-- `date.isoformat` and `date.fromisoformat`, on the form YYYY-MM-DD. Python also reads the basic
-- and the week forms; the program's calls read texts that `isoformat` wrote, but for the date
-- that an MCP caller gives, which is read in this form only.
use Prim.Native.String.{String, [], ◌∷◌}
use Prim.Native.Char.{code}
use python_workflow_service.Prelude.{
  ℕ, ◌+◌, ◌*◌, ◌/◌, ◌%◌, ◌<◌, ◌≡◌, refl, ◌&&◌, Option, none, some, arith, leb, ◌==◌, if◌then◌else◌,
}
use python_workflow_service.Prelude.Text.{digit, digit_of, digit_of-digit, prefix}
use python_workflow_service.Calendar.{Date, date, last_day}
use python_workflow_service.Calendar.Laws.{IsDate, last_day_bounds}

unfoldable pub isoformat : Date → String
isoformat d =
    digit (d.year / 1000 % 10)
    ∷ digit (d.year / 100 % 10)
    ∷ digit (d.year / 10 % 10)
    ∷ digit (d.year % 10)
    ∷ "-"
    ∷ digit (d.month / 10 % 10)
    ∷ digit (d.month % 10)
    ∷ "-"
    ∷ digit (d.day / 10 % 10)
    ∷ digit (d.day % 10)
    ∷ []

infixl 5 ◌>>=◌
abbrev ◌>>=◌ : {A B : Type 0} → Option A → (A → Option B) → Option B
none >>= k = none
some a >>= k = k a

-- `date(y, m, d)`, which raises `ValueError` out of range.
unfoldable pub new_date : ℕ → ℕ → ℕ → Option Date
unfolding last_day
new_date y m d =
    if leb 1 y && leb 1 m && leb m 12 && leb 1 d && leb d (last_day y m)
    then some (date y m d)
    else none

-- `date.fromisoformat(s)`; `none` is `ValueError`.
unfoldable pub fromisoformat : String → Option Date
unfolding new_date
fromisoformat (y3 ∷ y2 ∷ y1 ∷ y0 ∷ s1 ∷ m1 ∷ m0 ∷ s2 ∷ d1 ∷ d0 ∷ []) = do
  a ← digit_of y3
  b ← digit_of y2
  c ← digit_of y1
  e ← digit_of y0
  f ← digit_of m1
  g ← digit_of m0
  h ← digit_of d1
  i ← digit_of d0
  if code s1 == b'-' && code s2 == b'-'
      then new_date (a * 1000 + b * 100 + c * 10 + e) (f * 10 + g) (h * 10 + i)
      else none
fromisoformat _ = none

new_date_lem :
    (d : Date) (y m k : ℕ)
    → IsDate d
    → y ≡ d.year
    → m ≡ d.month
    → k ≡ d.day
    → new_date y m k ≡ some d
unfolding new_date
new_date_lem d y m k v ey em ed = ground (arith, v.year_pos)

-- A date with a year of at most four digits is read back from its text.
pub fromisoformat-isoformat :
    (d : Date) → IsDate d → d.year < 10000 → fromisoformat (isoformat d) ≡ some d
unfolding fromisoformat isoformat
fromisoformat-isoformat d v h =
    simp
      (
        digit_of-digit (d.year / 1000 % 10) (omega arith),
        digit_of-digit (d.year / 100 % 10) (omega arith),
        digit_of-digit (d.year / 10 % 10) (omega arith),
        digit_of-digit (d.year % 10) (omega arith),
        digit_of-digit (d.month / 10 % 10) (omega arith),
        digit_of-digit (d.month % 10) (omega arith),
        digit_of-digit (d.day / 10 % 10) (omega arith),
        digit_of-digit (d.day % 10) (omega arith),
      )
      (new_date_lem d
        (d.year / 1000 % 10 * 1000 + d.year / 100 % 10 * 100 + d.year / 10 % 10 * 10 + d.year % 10)
        (d.month / 10 % 10 * 10 + d.month % 10) (d.day / 10 % 10 * 10 + d.day % 10) v (omega arith)
        (omega (arith, v.month_le)) (omega (arith, v.day_le, last_day_bounds d.year d.month)))

-- `isoformat` writes ten characters.
pub prefix-isoformat : (d : Date) → prefix 10 (isoformat d) ≡ isoformat d
unfolding isoformat
prefix-isoformat d = refl
