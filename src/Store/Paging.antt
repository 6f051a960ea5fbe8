-- ===== src/Store/Paging.antt =====
-- The pages of the lists of src/app/crud. PostgreSQL may read the rows of a table in any order, and another one
-- for each query; rows that ORDER BY puts level stay in the order in which they are read.
use python_workflow_service.Prelude.{
  ℕ, zero, suc, ◌+◌, ◌-◌, ◌*◌, ◌≡◌, refl, sym, ◌∙◌, ap, Bool, true, false, ◌⊎◌, List, [], ◌∷◌, ◌++◌,
  length, filter, take, drop, arith, Bool-cases, inl, inr,
}
use python_workflow_service.Value.Dict.{Row}
use python_workflow_service.Store.{Table, Db, Result, ok, err}
use python_workflow_service.Store.Query.{insert_sorted, sort, list_page}

-- The same rows in another order.
pub data Rearranged : List Row → List Row → Type 0 where
  nothing : Rearranged [] []
  keep : {x : Row} {xs ys : List Row} → Rearranged xs ys → Rearranged (x ∷ xs) (x ∷ ys)
  swap : {x y : Row} {xs : List Row} → Rearranged (x ∷ y ∷ xs) (y ∷ x ∷ xs)
  both : {xs ys zs : List Row} → Rearranged xs ys → Rearranged ys zs → Rearranged xs zs

Rearranged-refl : (xs : List Row) → Rearranged xs xs
Rearranged-refl [] = nothing
Rearranged-refl (x ∷ xs) = keep (Rearranged-refl xs)

filter-Rearranged :
    (p : Row → Bool) {xs ys : List Row} → Rearranged xs ys → Rearranged (filter p xs) (filter p ys)
filter-Rearranged p nothing = nothing
filter-Rearranged p (keep {x} r) = elim (Bool-cases (p x)) [
  | inl hit ↦ rw hit (keep (filter-Rearranged p r))
  | inr miss ↦ rw miss (filter-Rearranged p r)
]
filter-Rearranged p (swap {x} {y} {xs}) = elim (Bool-cases (p x)) [
  | inl hit ↦ elim (Bool-cases (p y)) [
    | inl also ↦ rw (hit, also) swap
    | inr miss ↦ rw (hit, miss) (Rearranged-refl (x ∷ filter p xs))
  ]
  | inr miss ↦ elim (Bool-cases (p y)) [
    | inl hit ↦ rw (miss, hit) (Rearranged-refl (y ∷ filter p xs))
    | inr also ↦ rw (miss, also) (Rearranged-refl (filter p xs))
  ]
]
filter-Rearranged p (both r r') = both (filter-Rearranged p r) (filter-Rearranged p r')

module _ (before : Row → Row → Bool) where
  abbrev pub Asymmetric : Type 0
  Asymmetric = (x y : Row) → before x y ≡ true → before y x ≡ false

  abbrev pub Transitive : Type 0
  Transitive = (x y z : Row) → before x y ≡ true → before y z ≡ true → before x z ≡ true

  -- A row is level with none of the others.
  abbrev pub Apart : Row → List Row → Type 0
  Apart x [] = Unit
  Apart x (y ∷ ys) = ((before x y ≡ true) ⊎ (before y x ≡ true)) × Apart x ys

  -- No two rows are level.
  abbrev pub NoTies : List Row → Type 0
  NoTies [] = Unit
  NoTies (x ∷ xs) = Apart x xs × NoTies xs

  other_way :
      (x y : Row)
      → (before x y ≡ true) ⊎ (before y x ≡ true)
      → (before y x ≡ true) ⊎ (before x y ≡ true)
  other_way x y (inl h) = inr h
  other_way x y (inr h) = inl h

  Apart-Rearranged : (x : Row) {xs ys : List Row} → Rearranged xs ys → Apart x xs → Apart x ys
  Apart-Rearranged x nothing h = tt
  Apart-Rearranged x (keep r) (h, hs) = (h, Apart-Rearranged x r hs)
  Apart-Rearranged x swap (h, (k, hs)) = (k, (h, hs))
  Apart-Rearranged x (both r r') h = Apart-Rearranged x r' (Apart-Rearranged x r h)

  NoTies-Rearranged : {xs ys : List Row} → Rearranged xs ys → NoTies xs → NoTies ys
  NoTies-Rearranged nothing h = tt
  NoTies-Rearranged (keep {x} r) (h, hs) = (Apart-Rearranged x r h, NoTies-Rearranged r hs)
  NoTies-Rearranged (swap {x} {y}) ((h, hs), (k, ks)) = ((other_way x y h, k), (hs, ks))
  NoTies-Rearranged (both r r') h = NoTies-Rearranged r' (NoTies-Rearranged r h)

  module _ (asym : Asymmetric) (trans : Transitive) where
    -- Two rows that are not level may be put in one after the other, either way round.
    insert_either :
        (x y : Row) (zs : List Row)
        → before x y ≡ true
        → insert_sorted before x (insert_sorted before y zs)
          ≡ insert_sorted before y (insert_sorted before x zs)
    unfolding insert_sorted
    insert_either x y [] h = rw (h, asym x y h) refl
    insert_either x y (z ∷ zs) h = elim (Bool-cases (before z x)) [
      | inl zx ↦
          let zy = trans z x y zx h in
          rw (zx, zy) (rw zx (ap (λ l. z ∷ l) (insert_either x y zs h)))
      | inr not_zx ↦ elim (Bool-cases (before z y)) [
        | inl zy ↦ rw (not_zx, zy) (rw (not_zx, h) refl)
        | inr not_zy ↦ rw (not_zx, not_zy) (rw (asym x y h, h) refl)
      ]
    ]

    sort-Rearranged :
        {xs ys : List Row} → Rearranged xs ys → NoTies xs → sort before xs ≡ sort before ys
    unfolding sort
    sort-Rearranged nothing h = refl
    sort-Rearranged (keep {x} r) (h, hs) = ap (insert_sorted before x) (sort-Rearranged r hs)
    sort-Rearranged (swap {x} {y} {xs}) ((inl h, hs), k) = insert_either x y (sort before xs) h
    sort-Rearranged (swap {x} {y} {xs}) ((inr h, hs), k) =
        sym (insert_either y x (sort before xs) h)
    sort-Rearranged (both r r') h = sort-Rearranged r h ∙ sort-Rearranged r' (NoTies-Rearranged r h)

length-Rearranged : {xs ys : List Row} → Rearranged xs ys → length xs ≡ length ys
length-Rearranged nothing = refl
length-Rearranged (keep r) = ap suc (length-Rearranged r)
length-Rearranged swap = refl
length-Rearranged (both r r') = length-Rearranged r ∙ length-Rearranged r'

take-add : (m n : ℕ) (xs : List Row) → take (m + n) xs ≡ take m xs ++ take n (drop m xs)
take-add zero n xs = let same : 0 + n ≡ n = omega arith in rw same refl
take-add (suc m) zero [] = let same : suc m + 0 ≡ suc m = omega arith in rw same refl
take-add (suc m) (suc n) [] =
    let same : suc m + suc n ≡ suc (m + suc n) = omega arith in rw same refl
take-add (suc m) n (x ∷ xs) =
    let same : suc m + n ≡ suc (m + n) = omega arith in rw (same, take-add m n xs) refl

abbrev pub rows_of : Result (List Row × ℕ) × Db → List Row
rows_of (ok (rows, total), db) = rows
rows_of (err e, db) = []

abbrev pub total_of : Result (List Row × ℕ) × Db → ℕ
total_of (ok (rows, total), db) = total
total_of (err e, db) = 0

module _ (t : Table) (p : Row → Bool) (before : Row → Row → Bool) (page_size : ℕ)
    (at_page : ℕ → Db) where
  -- The first pages, one behind the other, each read from a state of its own.
  abbrev pub pages : ℕ → List Row
  pages zero = []
  pages (suc k) = pages k ++ rows_of (list_page t p before (suc k) page_size (at_page (suc k)))

  module _ (asym : Asymmetric before) (trans : Transitive before) (rows : List Row)
      (same : (k : ℕ) → Rearranged rows ((at_page k).rows t))
      (apart : NoTies before (filter p rows)) where
    pages-take : (k : ℕ) → pages k ≡ take (k * page_size) (sort before (filter p rows))
    unfolding list_page
    pages-take zero = let none' : 0 * page_size ≡ 0 = omega arith in rw none' refl
    pages-take (suc k) =
        let all = sort before (filter p rows) in
        let size : suc k * page_size ≡ k * page_size + page_size = omega arith in
        let last : suc k - 1 ≡ k = omega arith in
        let read = sort-Rearranged before asym trans (filter-Rearranged p (same (suc k))) apart in
        rw (size, take-add (k * page_size) page_size all, pages-take k, last, sym read) refl

    -- The first pages of a list, one behind the other, are as many of the matching rows in order,
    -- though each query may read the rows in an order of its own. The total that comes with a page is
    -- the number of the matching rows. The rows must be the same for every page, and no two of those
    -- that match level in the order of the list, which is asymmetric and transitive.
    pub list_page_lem :
        (k : ℕ)
        → (pages k ≡ take (k * page_size) (sort before (filter p rows)))
          × (total_of (list_page t p before k page_size (at_page k)) ≡ length (filter p rows))
    unfolding list_page
    list_page_lem k = (pages-take k, sym (length-Rearranged (filter-Rearranged p (same k))))
