-- ===== src/Store/Query.antt =====
-- The statements that the classes of src/app/crud share, over the rows of one table: a WHERE clause
-- is a Boolean test of a row. A comparison with NULL does not hold, as in SQL.
use Prim.Native.String.{◌++◌ as str_append}
use python_workflow_service.Prelude.{
  ℕ, ◌+◌, ◌-◌, ◌*◌, String, Bool, not, ◌&&◌, Option, none, some, List, [], ◌∷◌, ◌++◌, length,
  filter, find, take, drop, ◌==◌, if◌then◌else◌,
}
use python_workflow_service.Prelude.Text.{prefix}
use python_workflow_service.Value.{Instant, str, at, is_text, is_none}
use python_workflow_service.Value.Dict.{Row, get, insert, merge}
use python_workflow_service.Store.{Table, Env, Action, put_rows, pure, gets, fresh, ◌>>=◌, ◌>>◌}

-- `Model.column == text`.
abbrev pub column_is : Row → String → String → Bool
column_is r column s = is_text (get r column) s

-- `Model.column != text`, which a NULL does not satisfy.
abbrev pub column_is_not : Row → String → String → Bool
column_is_not r column s = not (is_none (get r column)) && not (column_is r column s)

abbrev pub is_active : Row → Bool
is_active r = column_is r "record_status" "active"

-- The WHERE clause of `get_by_id`, `update` and `soft_delete`.
unfoldable pub in_scope : String → String → String → Row → Bool
unfolding get
in_scope tenant_id project_id entity_id r =
    column_is r "id" entity_id
    && column_is r "tenant_id" tenant_id
    && column_is r "project_id" project_id
    && is_active r

-- UPDATE … WHERE: every matching row is changed.
unfoldable pub update_where : (Row → Bool) → (Row → Row) → List Row → List Row
update_where p f [] = []
update_where p f (r ∷ rs) = (if p r then f r else r) ∷ update_where p f rs

-- `result.rowcount`.
unfoldable pub count_where : (Row → Bool) → List Row → ℕ
count_where p [] = 0
count_where p (r ∷ rs) = (if p r then 1 else 0) + count_where p rs

-- SELECT … WHERE … `scalar_one_or_none`, for a test that at most one row meets; the MultipleResultsFound
-- of a second row is not modelled.
unfoldable pub select_one : Table → (Row → Bool) → Action (Option Row)
select_one t p = gets (λ db. find p (db.rows t))

unfoldable pub select_all : Table → (Row → Bool) → Action (List Row)
select_all t p = gets (λ db. filter p (db.rows t))

unfoldable pub get_by_id : Table → String → String → String → Action (Option Row)
unfolding select_one in_scope
get_by_id t tenant_id project_id entity_id = select_one t (in_scope tenant_id project_id entity_id)

abbrev pub execute_update : Table → (Row → Bool) → (Row → Row) → Action (Unit {0})
execute_update t p f db = pure tt (put_rows t (update_where p f (db.rows t)) db)

abbrev pub append_row : Table → Row → Action (Unit {0})
append_row t r db = pure tt (put_rows t (db.rows t ++ r ∷ []) db)

module _ (env : Env) where
  -- `f"{name}_{uuid.uuid4().hex[:12]}"`.
  unfoldable pub new_id : String → Action String
  new_id name = do hex ← fresh env.uuid_hex; pure (str_append name (str_append "_" (prefix 12 hex)))

  -- `Model(id=…, **data)`, `db.add`, `db.flush`, `db.refresh`: the columns that are not given take
  -- the defaults of the table, at the time of the statement.
  unfoldable pub insert_row : Table → String → (Instant → Row) → Row → Action Row
  unfolding new_id merge
  insert_row t name defaults data' = do
    entity_id ← new_id name
    now ← fresh env.now
    let row = merge (defaults now) (("id", str entity_id) ∷ data')
    append_row t row
    pure row

  -- `create` of the tables that are scoped to a tenant and a project.
  unfoldable pub create : Table → String → (Instant → Row) → String → String → Row → Action Row
  unfolding insert_row
  create t name defaults tenant_id project_id data' =
      insert_row t name defaults
        (("tenant_id", str tenant_id) ∷ ("project_id", str project_id) ∷ data')

  -- `update`: UPDATE … RETURNING.
  unfoldable pub update : Table → String → String → String → Row → Action (Option Row)
  unfolding in_scope update_where merge
  update t tenant_id project_id entity_id data' = do
    now ← fresh env.now
    let values = insert "updated_at" (at now) data'
    found ← gets (λ db. find (in_scope tenant_id project_id entity_id) (db.rows t))
    execute_update t (in_scope tenant_id project_id entity_id) (λ r. merge r values)
    pure (elim found [ none ↦ none | some r ↦ some (merge r values) ])

  -- `soft_delete`.
  unfoldable pub soft_delete : Table → String → String → String → Action Bool
  unfolding in_scope update_where count_where
  soft_delete t tenant_id project_id entity_id = do
    deleted_at ← fresh env.now
    updated_at ← fresh env.now
    count ← gets (λ db. count_where (in_scope tenant_id project_id entity_id) (db.rows t))
    execute_update t (in_scope tenant_id project_id entity_id) (λ r. merge r (
        ("record_status", str "deleted")
        ∷ ("deleted_at", at deleted_at)
        ∷ ("updated_at", at updated_at)
        ∷ []))
    pure (count == 1)

-- Sorting by a comparison, for ORDER BY: rows that compare equal stay in the order of the table.
unfoldable pub insert_sorted {ℓ} : {A : Type ℓ} → (A → A → Bool) → A → List A → List A
insert_sorted before x [] = x ∷ []
insert_sorted before x (y ∷ ys) =
    let rest = insert_sorted before x ys in if before y x then y ∷ rest else x ∷ y ∷ ys

-- ORDER BY. Rows that are level stand in the order in which the table is read, which PostgreSQL leaves
-- open: a result that holds for any such order takes the rows of the table in an order of its own.
unfoldable pub sort {ℓ} : {A : Type ℓ} → (A → A → Bool) → List A → List A
unfolding insert_sorted
sort before [] = []
sort before (x ∷ xs) = insert_sorted before x (sort before xs)

-- The shape of every `list`: the page of the matching rows in order, and how many match. The pages
-- count from 1.
unfoldable pub list_page : Table → (Row → Bool) → (Row → Row → Bool) → ℕ → ℕ → Action (List Row × ℕ)
unfolding sort
list_page t p before page page_size = do
  rows ← gets (λ db. filter p (db.rows t))
  pure (take page_size (drop ((page - 1) * page_size) (sort before rows)), length rows)
