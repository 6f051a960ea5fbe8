-- ===== src/Services/WorkOrderService/VendorAccess.antt =====
-- Whom `get_by_vendor_token` of src/app/business/services/work_order_service.py lets in.
use python_workflow_service.Prelude.{
  ◌≤◌, String, ◌≡◌, refl, Bool, true, ◌&&◌, ◌||◌, find, find_sound, arith, Bool-cases, Option-cases,
  inl, inr, ltb,
}
use python_workflow_service.Prelude.Text.{text_length, is_empty}
use python_workflow_service.Value.Dict.{Row}
use python_workflow_service.Store.{Db, Env, Result, ok, err, validation, work_orders}
use python_workflow_service.Store.Query.{column_is, is_active, select_one}
use python_workflow_service.Timeline.{hash_vendor_token}
use python_workflow_service.Crud.WorkOrders
use python_workflow_service.Services.WorkOrderService.{get_by_vendor_token}

-- The answer to a token: a work order that is active and has the token's hash, for a token of at
-- least sixteen characters, or the error of an unknown token.
abbrev pub Answers : Env → String → Result Row → Type 0
Answers env token (ok r) =
    (16 ≤ text_length token)
    × (column_is r "vendor_token_hash" (hash_vendor_token env token) ≡ true)
    × (is_active r ≡ true)
Answers env token (err e) = e ≡ validation "auth.errors.unauthorized"

-- Whatever the token, the database is unchanged, and the answer is an active work order that has the
-- token's hash, for a token of at least sixteen characters, or the error of an unknown token.
pub get_by_vendor_token_lem :
    (env : Env) (token : String) (db : Db)
    → Answers env token (get_by_vendor_token env token db).0
      × ((get_by_vendor_token env token db).1 ≡ db)
unfolding get_by_vendor_token WorkOrders.get_by_vendor_token_hash select_one
get_by_vendor_token_lem env token db =
    let p : Row → Bool =
      λ r. column_is r "vendor_token_hash" (hash_vendor_token env token) && is_active r in
    elim (Bool-cases (is_empty token || ltb (text_length token) 16)) [
      | inl short ↦ rw short (refl, refl)
      | inr long ↦ elim (Option-cases (find p (db.rows work_orders))) [
        | inl unknown ↦ rw (long, unknown) (refl, refl)
        | inr (r, known) ↦
            let holds = find_sound p (db.rows work_orders) known in
            rw (long, known) ((ground arith, ground arith, ground arith), refl)
      ]
    ]
