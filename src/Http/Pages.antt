-- ===== src/Http/Pages.antt =====
-- What `list_response` of src/app/core/utils/response_factory.py says of the next page of a list of src/app/crud.
use python_workflow_service.Prelude.{
  String, ℕ, zero, suc, ◌+◌, ◌-◌, ◌*◌, ◌/◌, ◌<◌, ◌≡◌, refl, sym, ap, ◌∙◌, Bool, true, List, [], ◌∷◌,
  length, filter, take, drop, ltb, arith, Bool-cases, inl, inr,
}
use native.Mathlib.Nat.{le-div_iff_mul-le}
use python_workflow_service.Value.{bool}
use python_workflow_service.Value.Dict.{Row, get}
use python_workflow_service.Store.{Table, Db}
use python_workflow_service.Store.Query.{insert_sorted, sort, list_page}
use python_workflow_service.Store.Paging.{rows_of, total_of}
use python_workflow_service.Http.{Web, total_pages, has_next, list_response}

length-insert_sorted :
    (before : Row → Row → Bool) (x : Row) (xs : List Row)
    → length (insert_sorted before x xs) ≡ suc (length xs)
unfolding insert_sorted
length-insert_sorted before x [] = refl
length-insert_sorted before x (y ∷ ys) = elim (Bool-cases (before y x)) [
  | inl hit ↦ rw (hit, length-insert_sorted before x ys) refl
  | inr miss ↦ rw miss refl
]

length-sort : (before : Row → Row → Bool) (xs : List Row) → length (sort before xs) ≡ length xs
unfolding sort
length-sort before [] = refl
length-sort before (x ∷ xs) =
    rw (length-insert_sorted before x (sort before xs), length-sort before xs) refl

length-drop : (k : ℕ) (xs : List Row) → length (drop k xs) ≡ length xs - k
length-drop zero xs = omega arith
length-drop (suc k) [] = omega arith
length-drop (suc k) (x ∷ xs) = rw (length-drop k xs) (omega arith)

-- A page is empty where there is nothing to take.
some_taken : (n : ℕ) (xs : List Row) → 0 < n → ltb 0 (length (take n xs)) ≡ ltb 0 (length xs)
some_taken zero xs h = ground arith
some_taken (suc n) [] h = refl
some_taken (suc n) (x ∷ xs) h = ground arith

left_over : (k n : ℕ) → ltb 0 (n - k) ≡ ltb k n
left_over k n = ground arith

same_test : (a b c d : ℕ) → (a < b → c < d) → (c < d → a < b) → ltb a b ≡ ltb c d
same_test a b c d f g = elim (Bool-cases (ltb a b)) [
  | inl less ↦ let less' : c < d = f (ground arith) in ground arith
  | inr not_less ↦ elim (Bool-cases (ltb c d)) [
    | inl less ↦ let less' : a < b = g (ground arith) in ground arith
    | inr not_less' ↦ rw (not_less, not_less') refl
  ]
]

has_next-total :
    (total page page_size : ℕ)
    → 0 < page_size
    → has_next total page page_size ≡ ltb (page * page_size) total
unfolding has_next total_pages
has_next-total total page page_size h =
    let given : ltb 0 page_size ≡ true = ground arith in
    let step : suc page * page_size ≡ page_size + page * page_size = omega arith in
    let law = le-div_iff_mul-le {k = page_size} {x = suc page} {y = total + page_size - 1} h in
    rw given (
      same_test page ((total + page_size - 1) / page_size) (page * page_size) total
        (λ less. let within = law.0 less in omega (arith, within, step))
        (λ less. law.1 (omega (arith, step, less))))

-- The page behind a page has rows exactly where the total exceeds what the pages up to it hold.
next_rows :
    (t : Table) (p : Row → Bool) (before : Row → Row → Bool) (page page_size : ℕ) (db : Db)
    → 0 < page_size
    → ltb 0 (length (rows_of (list_page t p before (page + 1) page_size db)))
      ≡ ltb (page * page_size) (length (filter p (db.rows t)))
unfolding list_page
next_rows t p before page page_size db h =
    let same : page + 1 - 1 ≡ page = omega arith in
    let found = filter p (db.rows t) in
    rw
      (
        same,
        some_taken page_size (drop (page * page_size) (sort before found)) h,
        length-drop (page * page_size) (sort before found),
        length-sort before found,
      )
      (left_over (page * page_size) (length found))

-- The answer with a page of a list, and with the total that the list gave with it, says that there is
-- a next page exactly where the list of the next page has a row, if pages are not empty.
pub list_response-next :
    (w : Web) (language : String) (items : List Row) (t : Table) (p : Row → Bool)
    (before : Row → Row → Bool) (page page_size : ℕ) (db : Db)
    → 0 < page_size
    → get
        (list_response w language items
          (total_of (list_page t p before page page_size db))
          page
          page_size).content
        "has_next"
      ≡ bool (ltb 0 (length (rows_of (list_page t p before (page + 1) page_size db))))
unfolding list_response get list_page
list_response-next w language items t p before page page_size db h = ap bool (
    has_next-total (length (filter p (db.rows t))) page page_size h
    ∙ sym (next_rows t p before page page_size db h))
