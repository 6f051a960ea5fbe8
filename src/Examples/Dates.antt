-- ===== src/Examples/Dates.antt =====
-- The theorems on the dates of the visits, at single contracts and templates.
use python_workflow_service.Prelude.{
  ℕ, ◌+◌, ◌*◌, ◌≤◌, ◌<◌, ◌≡◌, refl, true, false, ◌||◌, Option, none, some, [], ◌∷◌, All, length,
  arith,
}
use python_workflow_service.Calendar.{Date, date_ltb, add_days, last_day, to_ordinal}
use python_workflow_service.Calendar.Iso.{isoformat, fromisoformat, new_date}
use python_workflow_service.Calendar.Laws.{IsDate}
use python_workflow_service.Value.{Value, seq, items_of, str, num, py_str}
use python_workflow_service.Value.Dict.{get}
use python_workflow_service.Value.Safe.{snapshot_record, IsJson, snapshot_record-IsJson}
use python_workflow_service.Prelude.{pos, map}
use python_workflow_service.Schedule.{
  parse_d, int_of, day_number, insert_day, add_day, collect_days, normalize_days, next_occurrence,
  has_day, entries, first_visit, past_end, visit_frequency, iter_visit_dates,
}
use python_workflow_service.Schedule.Days.{AscendsFrom, InRange, Names, normalize_days_lem}
use python_workflow_service.Schedule.Weekdays.{IsFirst}
use python_workflow_service.Schedule.Occurrence.{
  next_occurrence_later, next_occurrence_weekday, next_occurrence_month_day,
}
use python_workflow_service.Schedule.Visits.{take_until, steps_from, Ascends}
use python_workflow_service.Schedule.Visits.Contract.{iter_visit_dates_lem, daily_visits_stop}
use python_workflow_service.Examples.{today, contract, daily_contract}

today-IsDate : IsDate today
unfolding last_day
today-IsDate = record {
  year_pos = omega arith;
  month_pos = omega arith;
  month_le = omega arith;
  day_pos = omega arith;
  day_le = omega arith;
}

abbrev first_of_february : Date
first_of_february = record { year = 2025; month = 2; day = 1 }

february-IsDate : IsDate first_of_february
unfolding last_day
february-IsDate = record {
  year_pos = omega arith;
  month_pos = omega arith;
  month_le = omega arith;
  day_pos = omega arith;
  day_le = omega arith;
}

-- A weekday by its name, and a day by its number.
abbrev tuesday : Value
tuesday = seq (items_of (str "Tue" ∷ []))

abbrev fifteenth : Value
fifteenth = seq (items_of (num (pos 15) ∷ num (pos 40) ∷ []))

normalize_days_lem_example :
    AscendsFrom 0 (normalize_days tuesday "weekly")
    × All (InRange 1 7) (normalize_days tuesday "weekly")
    × ((n : ℕ)
        → (has_day n (normalize_days tuesday "weekly") ≡ true → Names n (entries tuesday))
          × (InRange 1 7 n
              → Names n (entries tuesday)
              → has_day n (normalize_days tuesday "weekly") ≡ true))
normalize_days_lem_example = normalize_days_lem tuesday "weekly"

next_occurrence_later_example :
    IsDate (next_occurrence today "monthly" fifteenth)
    × (date_ltb today (next_occurrence today "monthly" fifteenth) ≡ true)
next_occurrence_later_example = next_occurrence_later today "monthly" fifteenth today-IsDate

next_occurrence_weekday_example :
    IsFirst 7 1 today (2 ∷ []) (next_occurrence today "fortnightly" tuesday)
unfolding normalize_days collect_days add_day insert_day day_number int_of py_str
next_occurrence_weekday_example =
    next_occurrence_weekday today "fortnightly" tuesday 2 [] today-IsDate refl refl

next_occurrence_month_day_example :
    ((next_occurrence today "quarterly" fifteenth).day ≡ 15)
    × ((next_occurrence today "quarterly" fifteenth).year * 12
          + (next_occurrence today "quarterly" fifteenth).month
        ≡ 2025 * 12 + 1 + 3)
unfolding normalize_days collect_days add_day insert_day day_number int_of py_str
next_occurrence_month_day_example =
    next_occurrence_month_day today "quarterly" fifteenth 15 [] today-IsDate refl refl

iter_visit_dates_lem_example :
    let visits = iter_visit_dates contract today in
    let end : Option Date = some (record { year = 2025; month = 3; day = 15 }) in
    let horizon = add_days 1830 today in
    (visits
      ≡ take_until
          (λ v. past_end end v || date_ltb horizon v)
          (steps_from 1000 "monthly" (first_visit first_of_february none "monthly")))
    × Ascends visits
    × All IsDate visits
    × All (λ v. (past_end end v ≡ false) × (date_ltb horizon v ≡ false)) visits
    × (length visits ≤ 1000)
unfolding parse_d fromisoformat isoformat new_date get py_str visit_frequency last_day
iter_visit_dates_lem_example =
    iter_visit_dates_lem contract today first_of_february refl february-IsDate tt

daily_visits_stop_example :
    All
      (λ v. to_ordinal v < to_ordinal (record { year = 2025; month = 1; day = 29 }) + 1000)
      (iter_visit_dates daily_contract today)
unfolding parse_d fromisoformat isoformat new_date get py_str visit_frequency last_day
daily_visits_stop_example =
    daily_visits_stop daily_contract today (record { year = 2025; month = 1; day = 29 }) refl
      (record {
        year_pos = omega arith;
        month_pos = omega arith;
        month_le = omega arith;
        day_pos = omega arith;
        day_le = omega arith;
      })
      refl refl

snapshot_record-IsJson_example :
    (map (λ e. e.0) (snapshot_record contract) ≡ map (λ e. e.0) contract)
    × All (λ e. IsJson e.1) (snapshot_record contract)
snapshot_record-IsJson_example = snapshot_record-IsJson contract
