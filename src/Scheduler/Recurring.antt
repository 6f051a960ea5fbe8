-- ===== src/Scheduler/Recurring.antt =====
-- One template of `generate_recurring_work_orders` in src/app/business/services/scheduler_service.py.
use Prim.Native.String.{◌++◌ as str_append}
use text.Mathlib.TextPositions.{eq_refl}
use python_workflow_service.Prelude.{
  ℕ, ◌+◌, String, ◌≡◌, refl, Bool, true, false, not, ◌||◌, ◌&&◌, List, [], ◌∷◌, ◌++◌, Bool-cases,
  inl, inr, if◌then◌else◌,
}
use python_workflow_service.Calendar.{Date, date_leb, add_days}
use python_workflow_service.Calendar.Iso.{isoformat}
use python_workflow_service.Value.{Value, null, str, on, at, is_text}
use python_workflow_service.Value.Dict.{Row, get, merge}
use python_workflow_service.Timeline.{generate_vendor_token, new_timeline_event}
use python_workflow_service.Store.{Db, Env, Result, ok, err, work_orders}
use python_workflow_service.Store.Query.{column_is, update_where}
use python_workflow_service.Crud.WorkOrders
use python_workflow_service.Crud.WorkOrders.{is_child, schedule_dates}
use python_workflow_service.Events.Laws.{record_and_dispatch_frame}
use python_workflow_service.Schedule.{parse_d, past_end, recurring_lead_days}
use python_workflow_service.Scheduler.{generate_instance, generate_for_template}
use python_workflow_service.Scheduler.Data.{
  Counts, created_event, instance_data, text_of, template_next_date, has_text,
}

-- An upcoming child of the template for a date.
pub record IsInstance (template_id : String) (date : Date) (r : Row) : Type 0 where
  pub child : is_child template_id r ≡ true
  pub upcoming : get r "state" ≡ str "upcoming"
  pub scheduled : get r "scheduled_date" ≡ on date

abbrev note : String → Row
note raw =
    ("type", str "created")
    ∷ ("by", str "Scheduler")
    ∷ ("note", str (str_append "Recurring instance; token=" raw))
    ∷ []

abbrev value_of : Result Value → Value
value_of (ok v) = v
value_of (err _) = null

record Made (template_id : String) (date : Date) (db db' : Db) : Type 0 where
  added : Row
  grown : db'.rows work_orders ≡ db.rows work_orders ++ added ∷ []
  instance' : IsInstance template_id date added

abbrev row_of : Result Row → Row
row_of (ok r) = r
row_of (err _) = []

id_text : (v : Value) (template_id : String) → v ≡ str template_id → is_text v template_id ≡ true
id_text v template_id e = rw e (eq_refl template_id)

module _ (env : Env) (template : Row) (template_id : String) where
  generate_instance-Made :
      (date : Date) (db : Db)
      → get template "id" ≡ str template_id
      → (db' : Db) × (generate_instance env template date db ≡ (ok tt, db'))
        × Made template_id date db db'
  unfolding generate_instance get generate_vendor_token new_timeline_event WorkOrders.create
      instance_data is_child
  generate_instance-Made date db e =
      let tenant_id = text_of template "tenant_id" in
      let project_id = text_of template "project_id" in
      let raw = env.token_urlsafe db.reads in
      let noted = new_timeline_event env (note raw) (generate_vendor_token env db).1 in
      let created =
        WorkOrders.create env tenant_id project_id
          (instance_data template date (env.sha256_hex raw) (value_of noted.0)) noted.1 in
      let (db', run, keep) =
        record_and_dispatch_frame env (created_event (row_of created.0) tenant_id project_id)
          created.1 in
      (
        db',
        run,
        record {
          added = row_of created.0;
          grown = keep work_orders refl refl;
          instance' = record {
            child = rw (id_text (get template "id") template_id e) refl;
            upcoming = refl;
            scheduled = refl;
          };
        },
      )

-- What a run over one template does to the work orders: the template gets its next date, and there
-- is one more work order, or none.
module _ (template_id : String) (next_date : Date) (p : Row → Bool) (f : Row → Row)
    (db db' : Db) where
  pub record Spawned : Type 0 where
    pub added : Row
    pub grown : db'.rows work_orders ≡ update_where p f (db.rows work_orders ++ added ∷ [])
    pub instance' : IsInstance template_id next_date added

  abbrev pub Unspawned : Type 0
  Unspawned = db'.rows work_orders ≡ update_where p f (db.rows work_orders)

module _ (env : Env) (template : Row) (template_id : String) (today : Date) (counts : Counts)
    (db : Db) where
  -- The dates of the template's children, without those that are terminated or deleted.
  abbrev pub existing : List String
  existing = schedule_dates (is_child (text_of template "id")) (db.rows work_orders)

  abbrev pub next_date : Date
  next_date = template_next_date template existing today

  abbrev pub ended : Bool
  ended = past_end (parse_d (get template "recurring_end_date")) next_date

  -- The date is past the end, or one of these children has it.
  abbrev pub is_over : Bool
  is_over = ended || has_text existing (isoformat next_date)

  abbrev pub is_due : Bool
  is_due = date_leb next_date (add_days recurring_lead_days today)

  abbrev is_this : Row → Bool
  is_this r = column_is r "id" (text_of template "id")

  abbrev set_next : ℕ → Row → Row
  set_next n r = merge r (
      ("recurring_next_date", if ended then null else on next_date)
      ∷ ("updated_at", at (env.now n))
      ∷ [])

  -- The state once the template has its next date.
  abbrev moved : Db → Db
  moved db' =
      (WorkOrders.update_recurring_next_date env (text_of template "id")
        (if ended then null else on next_date) db').1

  -- A run makes a child and counts it, or makes none and counts none.
  abbrev pub Ran : Bool → ℕ → Counts → Db → Type 0
  Ran true n counts' db' =
      Spawned template_id next_date is_this (set_next n) db db'
      × (counts'.created ≡ counts.created + 1)
  Ran false n counts' db' =
      Unspawned template_id next_date is_this (set_next n) db db'
      × (counts'.created ≡ counts.created)

  -- A run over a template makes at most one work order. It returns, and if the next date is not
  -- past the end of the template, is at most the lead time ahead, and is the date of no child that
  -- is in the table and not terminated, then one upcoming child of the template for that date is
  -- appended and counted, also where a terminated child has that date. Otherwise no work order is
  -- added and none is counted. Either way the rows with the id of the template, and no others, get
  -- the next date, or none once it is past the end.
  pub generate_for_template-Ran :
      get template "id" ≡ str template_id
      → (counts' : Counts) × (db' : Db) × (n : ℕ) × (generate_for_template env template today counts
            db
          ≡ (ok counts', db'))
        × Ran (not is_over && is_due) n counts' db'
  unfolding generate_for_template WorkOrders.recurring_child_dates
      WorkOrders.update_recurring_next_date
  generate_for_template-Ran e = elim (Bool-cases is_over) [
    | inl over ↦ (
      record counts { skipped = counts.skipped + 1 },
      moved db,
      db.reads,
      rw over refl,
      rw over (refl, refl),
    )
    | inr wanted ↦ elim (Bool-cases is_due) [
      | inr later ↦
          (counts, moved db, db.reads, rw (wanted, later) refl, rw (wanted, later) (refl, refl))
      | inl due ↦
          let (db', run, made) = generate_instance-Made env template template_id next_date db e in
          (
            record counts { created = counts.created + 1 },
            moved db',
            db'.reads,
            rw (wanted, due, run) refl,
            rw (wanted, due)
                (
                  record {
                    added = made.added;
                    grown = rw made.grown refl;
                    instance' = made.instance';
                  },
                  refl,
                ),
          )
    ]
  ]
