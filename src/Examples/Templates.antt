-- ===== src/Examples/Templates.antt =====
-- A weekly template whose next work order is due.
use python_workflow_service.Prelude.{ℕ, ◌≡◌, refl, true, not, ◌&&◌, [], ◌∷◌}
use python_workflow_service.Value.{bool, str, on, seq, nil}
use python_workflow_service.Value.Dict.{Row, get}
use python_workflow_service.Store.{Db, ok}
use python_workflow_service.Scheduler.{generate_for_template}
use python_workflow_service.Scheduler.Data.{Counts}
use python_workflow_service.Scheduler.Recurring.{is_over, is_due, Ran, generate_for_template-Ran}
use python_workflow_service.Examples.{env, db, today}

abbrev template : Row
template =
    ("id", str "w9")
    ∷ ("tenant_id", str "t1")
    ∷ ("project_id", str "p1")
    ∷ ("title", str "Inspection")
    ∷ ("is_recurring", bool true)
    ∷ ("recurring_frequency", str "weekly")
    ∷ ("recurring_days", seq nil)
    ∷ ("scheduled_date", on (record { year = 2025; month = 1; day = 27 }))
    ∷ []

abbrev none_yet : Counts
none_yet = record { created = 0; cancelled = 0; skipped = 0 }

generate_for_template-Ran_example :
    (counts' : Counts) × (db' : Db) × (n : ℕ) × (generate_for_template env template today none_yet
        db
      ≡ (ok counts', db'))
    × Ran env template "w9" today none_yet db
        (not (is_over env template "w9" today none_yet db)
          && is_due env template "w9" today none_yet db)
        n
        counts'
        db'
unfolding get
generate_for_template-Ran_example =
    generate_for_template-Ran env template "w9" today none_yet db refl
