-- ===== src/Value/Safe.antt =====
-- `_json_safe` and `_deep_safe` of src/app/business/services/events_service.py.
use python_workflow_service.Prelude.{◌≡◌, refl, ap, [], ◌∷◌, map, All}
use python_workflow_service.Value.{
  Value, null, bool, num, str, enum, on, at, seq, obj, Items, nil, cons, Fields, end, field,
  instant_isoformat,
}
use python_workflow_service.Value.Dict.{Row}
use python_workflow_service.Calendar.Iso.{isoformat}

-- `_json_safe`: an enum member is a `str` and passes as it is.
unfoldable pub json_safe : Value → Value
json_safe (on d) = str (isoformat d)
json_safe (at t) = str (instant_isoformat t)
json_safe v = v

unfoldable mutual
  unfolding json_safe

  -- `_deep_safe`.
  pub deep_safe : Value → Value
  deep_safe (seq vs) = seq (deep_safe_items vs)
  deep_safe (obj r) = obj (deep_safe_fields r)
  deep_safe (on d) = json_safe (on d)
  deep_safe (at t) = json_safe (at t)
  deep_safe v = v

  pub deep_safe_items : Items → Items
  deep_safe_items nil = nil
  deep_safe_items (cons v vs) = cons (deep_safe v) (deep_safe_items vs)

  pub deep_safe_fields : Fields → Fields
  deep_safe_fields end = end
  deep_safe_fields (field k v r) = field k (deep_safe v) (deep_safe_fields r)

-- `snapshot_record`.
unfoldable pub snapshot_record : Row → Row
unfolding deep_safe
snapshot_record [] = []
snapshot_record ((k, v) ∷ d) = (k, deep_safe v) ∷ snapshot_record d

-- What `json.dumps` takes without `default`: no dates or times, at any depth.
mutual
  pub IsJson : Value → Type 0
  IsJson (on d) = ⊥
  IsJson (at t) = ⊥
  IsJson (seq vs) = AreJson vs
  IsJson (obj r) = FieldsAreJson r
  IsJson _ = Unit

  AreJson : Items → Type 0
  AreJson nil = Unit
  AreJson (cons v vs) = IsJson v × AreJson vs

  FieldsAreJson : Fields → Type 0
  FieldsAreJson end = Unit
  FieldsAreJson (field k v r) = IsJson v × FieldsAreJson r

mutual
  unfolding deep_safe deep_safe_items deep_safe_fields json_safe IsJson AreJson FieldsAreJson

  deep_safe-IsJson : (v : Value) → IsJson (deep_safe v)
  deep_safe-IsJson null = tt
  deep_safe-IsJson (bool b) = tt
  deep_safe-IsJson (num z) = tt
  deep_safe-IsJson (str s) = tt
  deep_safe-IsJson (enum s) = tt
  deep_safe-IsJson (on d) = tt
  deep_safe-IsJson (at t) = tt
  deep_safe-IsJson (seq vs) = deep_safe_items-AreJson vs
  deep_safe-IsJson (obj r) = deep_safe_fields-FieldsAreJson r

  deep_safe_items-AreJson : (vs : Items) → AreJson (deep_safe_items vs)
  deep_safe_items-AreJson nil = tt
  deep_safe_items-AreJson (cons v vs) = (deep_safe-IsJson v, deep_safe_items-AreJson vs)

  deep_safe_fields-FieldsAreJson : (r : Fields) → FieldsAreJson (deep_safe_fields r)
  deep_safe_fields-FieldsAreJson end = tt
  deep_safe_fields-FieldsAreJson (field k v r) =
      (deep_safe-IsJson v, deep_safe_fields-FieldsAreJson r)

-- The snapshot of any record has the record's keys in their order, and every value in it is one that
-- JSON can hold, at any depth.
pub snapshot_record-IsJson :
    (r : Row)
    → (map (λ e. e.0) (snapshot_record r) ≡ map (λ e. e.0) r)
      × All (λ e. IsJson e.1) (snapshot_record r)
unfolding snapshot_record
snapshot_record-IsJson [] = (refl, tt)
snapshot_record-IsJson ((k, v) ∷ r) =
    let (keys, safe) = snapshot_record-IsJson r in
    (ap (λ ks. k ∷ ks) keys, (deep_safe-IsJson v, safe))
