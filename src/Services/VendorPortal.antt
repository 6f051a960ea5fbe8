-- ===== src/Services/VendorPortal.antt =====
-- `class VendorPortalService` of src/app/business/services/vendor_portal_service.py: what a vendor
-- can do with the token of a work order.
use python_workflow_service.Prelude.{
  ℕ, ◌+◌, String, ◌≡◌, refl, ◌∙◌, Bool, false, not, ◌&&◌, some, List, [], ◌∷◌, str_eq, eq_iff,
  arith, Bool-cases, Option-cases, ◌⊎◌, inl, inr, find, if◌then◌else◌,
}
use python_workflow_service.Value.{at, is_none, truthy, or_default, py_str}
use python_workflow_service.Value.Dict.{
  Row, get, has_key, insert, erase, merge, get-merge, has_key-insert, last_write_absent,
}
use python_workflow_service.Store.{
  Db, Env, Action, Result, ok, err, work_orders, put_rows, validation, raise,
}
use python_workflow_service.Store.Query.{in_scope, update, update_where}
use python_workflow_service.Store.Laws.{KeptOutside, KeptOutside-refl, update_where-KeptOutside}
use python_workflow_service.Crud.WorkOrders
use python_workflow_service.Events.{diff_records}
use python_workflow_service.Events.Laws.{record_and_dispatch_frame}
use python_workflow_service.Scheduler.Data.{has_text}
use python_workflow_service.Services.{Scope, prepare_update_payload, service_event}
use python_workflow_service.Services.InvoiceService
use python_workflow_service.Services.WorkOrderService.{
  get_by_vendor_token, vendor_update, vendor_write, vendor_apply, nullable_fields, prepare_update,
}

-- `VENDOR_WORK_ORDER_FIELDS`.
abbrev pub vendor_fields : List String
vendor_fields =
    "state" ∷ "line_items" ∷ "form_values" ∷ "pre_start_form_values" ∷ "started_at" ∷ "completed_at"
    ∷ []

unfoldable pub is_allowed : String → Bool
is_allowed key = has_text vendor_fields key

-- `{key: value for key, value in data.items() if key in VENDOR_WORK_ORDER_FIELDS}`.
unfoldable pub allowed : Row → Row
allowed [] = []
allowed ((key, value) ∷ data') =
    let rest = allowed data' in if is_allowed key then (key, value) ∷ rest else rest

module _ (env : Env) where
  unfoldable pub get_work_order : String → Action Row
  unfolding get_by_vendor_token
  get_work_order = get_by_vendor_token env

  unfoldable pub update_work_order : Row → Row → Action Row
  update_work_order work_order data' = vendor_update env work_order (allowed data')

  unfoldable pub submit_invoice : Row → Row → Action Row
  submit_invoice work_order data' =
      let s : Scope = record {
        tenant_id = py_str (get work_order "tenant_id");
        project_id = py_str (get work_order "project_id");
      } in
      let vendor_id = or_default (get work_order "vendor_id") (get data' "vendor_id") in
      let payload =
        insert "vendor_id" vendor_id (insert "work_order_id" (get work_order "id") data') in
      if truthy vendor_id
      then InvoiceService.create env s "vendor_portal" payload
      else raise (validation "errors.validation")

-- `list` of the invoice service with its default page.
unfoldable pub list_invoices : Row → Action (List Row × ℕ)
list_invoices work_order =
    let s : Scope = record {
      tenant_id = py_str (get work_order "tenant_id");
      project_id = py_str (get work_order "project_id");
    } in
    InvoiceService.page_of s 1 50 (py_str (get work_order "id")) ""

allowed_lem :
    (data' : Row) (key : String) → is_allowed key ≡ false → has_key (allowed data') key ≡ false
unfolding allowed has_key
allowed_lem [] key h = refl
allowed_lem ((j, v) ∷ data') key h = elim (Bool-cases (str_eq j key)) [
  | inl same ↦ let named = (eq_iff j key).0 same in rw named (rw h (allowed_lem data' key h))
  | inr other ↦ elim (Bool-cases (is_allowed j)) [
    | inl kept ↦ rw (kept, other) (allowed_lem data' key h)
    | inr dropped ↦ rw dropped (allowed_lem data' key h)
  ]
]

erase-absent : (d : Row) (j key : String) → has_key d key ≡ false → has_key (erase j d) key ≡ false
unfolding erase has_key
erase-absent [] j key h = refl
erase-absent ((i, v) ∷ d) j key h = ground (arith, erase-absent d j key)

prepare-absent :
    (nullable : List String) (name : String) (d : Row) (key : String)
    → has_key d key ≡ false
    → has_key (prepare_update_payload nullable name d) key ≡ false
unfolding prepare_update_payload has_key
prepare-absent nullable name [] key h = refl
prepare-absent nullable name ((i, v) ∷ d) key h = elim (Bool-cases (str_eq i key)) [
  | inl same ↦ let clash = rw same at h in ground arith
  | inr other ↦
      let rest = prepare-absent nullable name d key (rw other at h) in
      elim (Bool-cases (is_none v && not (has_text nullable i))) [
        | inl dropped ↦ rw dropped rest
        | inr kept ↦ rw (kept, other) rest
      ]
]

-- The row of the work order that a vendor's token opened.
abbrev pub own : Row → Row → Bool
own work_order =
    in_scope (py_str (get work_order "tenant_id")) (py_str (get work_order "project_id"))
      (py_str (get work_order "id"))

-- What a vendor's update gives back agrees in a column with the row that was there.
abbrev pub Keeps : String → Row → Db → Result Row → Type 0
Keeps key work_order db (err e) = Unit
Keeps key work_order db (ok r) =
    (r ≡ work_order)
    ⊎ ((found : Row) × (find (own work_order) (db.rows work_orders) ≡ some found)
        × (get r key ≡ get found key))

-- Every row of a table has in a column what it had before.
abbrev pub KeptColumn : String → List Row → List Row → Type 0
KeptColumn key [] [] = Unit
KeptColumn key (r ∷ rs) (s ∷ ss) = (get s key ≡ get r key) × KeptColumn key rs ss
KeptColumn key _ _ = ⊥

KeptColumn-refl : (key : String) (rs : List Row) → KeptColumn key rs rs
KeptColumn-refl key [] = tt
KeptColumn-refl key (r ∷ rs) = (refl, KeptColumn-refl key rs)

update_where-KeptColumn :
    (p : Row → Bool) (f : Row → Row) (key : String)
    → ((r : Row) → get (f r) key ≡ get r key)
    → (rs : List Row) → KeptColumn key rs (update_where p f rs)
unfolding update_where
update_where-KeptColumn p f key same [] = tt
update_where-KeptColumn p f key same (r ∷ rs) = (
  elim (Bool-cases (p r)) [ inl hit ↦ rw hit (same r) | inr miss ↦ rw miss refl ],
  update_where-KeptColumn p f key same rs,
)

-- The tables of the work orders before and after: a vendor has written its own row only, and there
-- not the column.
abbrev pub Untouched : String → Row → Db → Db → Type 0
Untouched key work_order db db' =
    KeptOutside (own work_order) (db.rows work_orders) (db'.rows work_orders)
    × KeptColumn key (db.rows work_orders) (db'.rows work_orders)

module _ (env : Env) (work_order : Row) where
  vendor_write-Keeps :
      (payload : Row) (db : Db) (key : String)
      → has_key payload key ≡ false
      → str_eq "updated_at" key ≡ false
      → Keeps key work_order db (vendor_write env work_order payload db).0
        × Untouched key work_order db (vendor_write env work_order payload db).1
  unfolding vendor_write WorkOrders.update update
  vendor_write-Keeps payload db key h k =
      let values = insert "updated_at" (at (env.now db.reads)) payload in
      let unwritten : (found : Row) → get (merge found values) key ≡ get found key = λ found.
        get-merge found values key
        ∙ last_write_absent values key _
            (has_key-insert "updated_at" key _ payload ∙ rw (k, h) refl) in
      let rows' = update_where (own work_order) (λ r. merge r values) (db.rows work_orders) in
      let stored : KeptOutside (own work_order) (db.rows work_orders) rows'
          × KeptColumn key (db.rows work_orders) rows' =
        (
          update_where-KeptOutside (own work_order) (λ r. merge r values) (db.rows work_orders),
          update_where-KeptColumn (own work_order) (λ r. merge r values) key unwritten
              (db.rows work_orders),
        ) in
      elim (Option-cases (find (own work_order) (db.rows work_orders))) [
        | inl missing ↦ rw missing (tt, stored)
        | inr (found, here) ↦
            let written = merge found values in
            let changed =
              put_rows work_orders
                (update_where (own work_order) (λ r. merge r values) (db.rows work_orders))
                (record db { reads = db.reads + 1 }) in
            let (db', run, others) =
              record_and_dispatch_frame env
                (service_event "work_order" "updated" written (diff_records work_order written)
                  (record {
                    tenant_id = py_str (get work_order "tenant_id");
                    project_id = py_str (get work_order "project_id");
                  })
                  "vendor_portal")
                changed in
            rw (here, run)
              (inr (found, here, unwritten found), rw (others work_orders refl refl) (stored))
      ]

vendor_apply-Keeps :
    (env : Env) (work_order payload : Row) (db : Db) (key : String)
    → has_key payload key ≡ false
    → str_eq "updated_at" key ≡ false
    → Keeps key work_order db (vendor_apply env work_order payload db).0
      × Untouched key work_order db (vendor_apply env work_order payload db).1
unfolding vendor_apply
vendor_apply-Keeps env work_order [] db key h k = (
  inl refl,
  (
    KeptOutside-refl (own work_order) (db.rows work_orders),
    KeptColumn-refl key (db.rows work_orders),
  ),
)
vendor_apply-Keeps env work_order (entry ∷ entries) db key h k =
    vendor_write-Keeps env work_order (entry ∷ entries) db key h k

-- A vendor can write the state, the line items, the form values and the times of the one work order
-- that the token opened, and nothing else: an update changes no other stored work order, and no column
-- of any stored work order but these and the time of the update. What it gives back, if it does not
-- raise, is the work order it was given or agrees with the stored row in all other columns.
pub update_work_order-Keeps :
    (env : Env) (work_order data' : Row) (db : Db) (key : String)
    → is_allowed key ≡ false
    → str_eq "updated_at" key ≡ false
    → Keeps key work_order db (update_work_order env work_order data' db).0
      × Untouched key work_order db (update_work_order env work_order data' db).1
unfolding update_work_order vendor_update prepare_update
update_work_order-Keeps env work_order data' db key h k =
    vendor_apply-Keeps env work_order _ db key
      (prepare-absent nullable_fields "title" (erase "timeline" (allowed data')) key
        (erase-absent (allowed data') "timeline" key (allowed_lem data' key h)))
      k
