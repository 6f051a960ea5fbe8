-- ===== src/Examples/Tables.antt =====
-- The theorems on the tables, on the rows of the examples.

use python_workflow_service.Prelude.{
  ℕ, zero, suc, ◌≡◌, refl, Bool, true, none, some, List, [], ◌∷◌, inr,
}
use python_workflow_service.Value.{str, at}
use python_workflow_service.Value.Dict.{Row, get, has_key, merge, insert}
use python_workflow_service.Models.{contract_defaults}
use python_workflow_service.Store.{Db, Table, err, integrity, contracts, business_profile, payments}
use python_workflow_service.Store.Query.{in_scope, create, update, soft_delete, sort, list_page}
use python_workflow_service.Store.Order.{newer}
use python_workflow_service.Store.Paging.{
  Rearranged, nothing, keep, swap, pages, total_of, list_page_lem,
}
use python_workflow_service.Store.Newest.{newer-Asymmetric, newer-Transitive}
use python_workflow_service.Store.View.{Key, view, put, map_row, new_key, new_row, table-Refines}
use python_workflow_service.Crud.BusinessProfile.{is_of, has_default_id, get_or_create}
use python_workflow_service.Crud.BusinessProfile.Singleton.{get_or_create-second}
use python_workflow_service.Examples.{env, db, noon}

abbrev active : Row → Bool
active r = in_scope "t1" "p1" "c1" r

abbrev key : Key
key = record { tenant_id = "t1"; project_id = "p1"; entity_id = "c1" }

abbrev pumps : Row
pumps = ("title", str "Pumps") ∷ []

abbrev added : Key
added = new_key env contracts "contract" contract_defaults db "t1" "p1"

table-Refines_example :
    (view contracts (create env contracts "contract" contract_defaults "t1" "p1" pumps db).1 key
      ≡ put added
          (some (new_row env contracts "contract" contract_defaults db added pumps))
          (view contracts db)
          key)
    × (view contracts (update env contracts "t1" "p1" "c1" pumps db).1 key
        ≡ put key
            (map_row
              (λ r. merge r (insert "updated_at" (at (env.now 0)) pumps))
              (view contracts db key))
            (view contracts db)
            key)
    × (view contracts (soft_delete env contracts "t1" "p1" "c1" db).1 key
        ≡ put key none (view contracts db) key)
unfolding has_key contract_defaults in_scope get
table-Refines_example =
    table-Refines env contracts "contract" contract_defaults db "t1" "p1" key pumps
      (refl, refl, refl, refl) (λ now. refl) refl key

abbrev profile : Row
profile = ("id", str "default") ∷ ("tenant_id", str "t1") ∷ ("project_id", str "p1") ∷ []

abbrev profile_rows : Table → List Row
profile_rows business_profile = profile ∷ []
profile_rows _ = []

abbrev profile_db : Db
profile_db = record { rows = profile_rows; reads = 0; locks = 0 }

get_or_create-second_example :
    (get_or_create env "t2" "p1" (get_or_create env "t1" "p1" profile_db).1).0
    ≡ err (integrity "business_profile_pkey")
unfolding has_default_id get_or_create is_of get
get_or_create-second_example =
    get_or_create-second env "t1" "p1" "t2" "p1" profile_db profile (refl, tt) refl refl

abbrev early : Row
early = ("id", str "1") ∷ ("created_at", at (record noon { hour = 9 })) ∷ []

abbrev late : Row
late = ("id", str "2") ∷ ("created_at", at noon) ∷ []

abbrev payment_rows : List Row → Table → List Row
payment_rows rows payments = rows
payment_rows rows _ = []

-- The first page is read from the earlier row on, the others from the later one.
abbrev paged : ℕ → Db
paged (suc zero) = record { rows = payment_rows (early ∷ late ∷ []); reads = 0; locks = 0 }
paged _ = record { rows = payment_rows (late ∷ early ∷ []); reads = 0; locks = 0 }

either_order : (k : ℕ) → Rearranged (early ∷ late ∷ []) ((paged k).rows payments)
either_order zero = swap
either_order (suc zero) = keep (keep nothing)
either_order (suc (suc k)) = swap

list_page_lem_example :
    (pages payments (λ r. true) newer 1 paged 2 ≡ late ∷ early ∷ [])
    × (total_of (list_page payments (λ r. true) newer 2 1 (paged 2)) ≡ 2)
unfolding newer sort
list_page_lem_example =
    list_page_lem payments (λ r. true) newer 1 paged newer-Asymmetric newer-Transitive
      (early ∷ late ∷ []) either_order ((inr refl, tt), (tt, tt)) 2
