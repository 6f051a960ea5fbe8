-- ===== src/Store/Newest.antt =====
-- The order of most lists of src/app/crud, the newest row first.
use python_workflow_service.Prelude.{◌≡◌, true, false, arith}
use python_workflow_service.Calendar.{Date, date_ltb}
use python_workflow_service.Value.{Value, Instant, null, bool, num, str, enum, on, at, seq, obj}
use python_workflow_service.Value.Dict.{get}
use python_workflow_service.Store.Order.{newer, instant_ltb, later}
use python_workflow_service.Store.Paging.{Asymmetric, Transitive}

later_asym : (s t : Instant) → instant_ltb s t ≡ true → instant_ltb t s ≡ false
unfolding instant_ltb
later_asym s t h = ground arith

later_values : (v w : Value) → later v w ≡ true → later w v ≡ false
later_values (at s) (at t) h = later_asym t s h
later_values (at s) null h = ground arith
later_values (at s) (bool b) h = ground arith
later_values (at s) (num z) h = ground arith
later_values (at s) (str t) h = ground arith
later_values (at s) (enum t) h = ground arith
later_values (at s) (on d) h = ground arith
later_values (at s) (seq vs) h = ground arith
later_values (at s) (obj fs) h = ground arith
later_values null w h = ground arith
later_values (bool b) w h = ground arith
later_values (num z) w h = ground arith
later_values (str t) w h = ground arith
later_values (enum t) w h = ground arith
later_values (on d) w h = ground arith
later_values (seq vs) w h = ground arith
later_values (obj fs) w h = ground arith

-- The order of most lists, the newest row first.
pub newer-Asymmetric : Asymmetric newer
unfolding newer
newer-Asymmetric x y h = later_values (get x "created_at") (get y "created_at") h

date_trans : (a b c : Date) → date_ltb a b ≡ true → date_ltb b c ≡ true → date_ltb a c ≡ true
date_trans a b c h k = ground arith

later_trans :
    (r s t : Instant) → instant_ltb r s ≡ true → instant_ltb s t ≡ true → instant_ltb r t ≡ true
unfolding instant_ltb
later_trans r s t h k = ground arith

later_values_trans : (u v w : Value) → later u v ≡ true → later v w ≡ true → later u w ≡ true
later_values_trans (at s) (at t) (at r) h k = later_trans r t s k h
later_values_trans (at s) (at t) null h k = ground arith
later_values_trans (at s) (at t) (bool b) h k = ground arith
later_values_trans (at s) (at t) (num z) h k = ground arith
later_values_trans (at s) (at t) (str x) h k = ground arith
later_values_trans (at s) (at t) (enum x) h k = ground arith
later_values_trans (at s) (at t) (on d) h k = ground arith
later_values_trans (at s) (at t) (seq vs) h k = ground arith
later_values_trans (at s) (at t) (obj fs) h k = ground arith
later_values_trans (at s) null w h k = ground arith
later_values_trans (at s) (bool b) w h k = ground arith
later_values_trans (at s) (num z) w h k = ground arith
later_values_trans (at s) (str x) w h k = ground arith
later_values_trans (at s) (enum x) w h k = ground arith
later_values_trans (at s) (on d) w h k = ground arith
later_values_trans (at s) (seq vs) w h k = ground arith
later_values_trans (at s) (obj fs) w h k = ground arith
later_values_trans null v w h k = ground arith
later_values_trans (bool b) v w h k = ground arith
later_values_trans (num z) v w h k = ground arith
later_values_trans (str x) v w h k = ground arith
later_values_trans (enum x) v w h k = ground arith
later_values_trans (on d) v w h k = ground arith
later_values_trans (seq vs) v w h k = ground arith
later_values_trans (obj fs) v w h k = ground arith

pub newer-Transitive : Transitive newer
unfolding newer
newer-Transitive x y z h k =
    later_values_trans (get x "created_at") (get y "created_at") (get z "created_at") h k
