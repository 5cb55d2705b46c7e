-- ===== src/SecurityEngine/Masking.antt =====
-- Which cells of a response the security engine masks.
use universal_database_proxy.Prelude.{
  ℕ, zero, suc, ◌+◌, ◌<◌, Bool, false, ◌&&◌, String, Option, none, some, List, [], ◌∷◌, ◌≡◌, refl,
  arith, string_eq, nat_eq, ◌==◌, eq_iff, if◌then◌else◌, ltb, length, set, get_elem?, mem,
  length-set,
}
use mathlib.Core.Option
use universal_database_proxy.Types.{Value}
use universal_database_proxy.SecurityEngine.{mask_fields_at, mask_columns, mask_rows, masked_value}

-- Column `j` has the name of a field to be masked.
abbrev pub selects : List String → Option String → Bool
selects fields none = false
selects fields (some col) = mem col fields

-- `v` as it stands after masking.
abbrev pub mask_if : Bool → Option Value → Option Value
mask_if b none = none
mask_if b (some v) = some (if b then masked_value else v)

mask_if-false : (o : Option Value) → mask_if false o ≡ o
mask_if-false none = refl
mask_if-false (some v) = refl

get_elem?-set_masked :
    (row : List Value) (j k : ℕ)
    → get_elem? (set row j masked_value) k ≡ mask_if (j == k) (get_elem? row k)
get_elem?-set_masked [] j k = refl
get_elem?-set_masked (v ∷ row) zero zero = refl
get_elem?-set_masked (v ∷ row) zero (suc k) = ground (arith, mask_if-false (get_elem? row k))
get_elem?-set_masked (v ∷ row) (suc j) zero = ground arith
get_elem?-set_masked (v ∷ row) (suc j) (suc k) = ground (arith, get_elem?-set_masked row j k)

get_elem?-short : (row : List Value) (k : ℕ) → ltb k (length row) ≡ false → get_elem? row k ≡ none
get_elem?-short [] k h = refl
get_elem?-short (v ∷ row) zero h = ground arith
get_elem?-short (v ∷ row) (suc k) h = get_elem?-short row k (ground arith)

length-mask_fields_at :
    (fields : List String) (col : String) (i j : ℕ) (row : List Value)
    → length (mask_fields_at fields col i j row) ≡ length row
unfolding mask_fields_at
length-mask_fields_at [] col i j row = refl
length-mask_fields_at (field ∷ fields) col i j row =
    let b = col == field && ltb i (length row) && ltb j (length row) in
    let next = (if b then set row j masked_value else row) in
    ground (arith, length-set row j masked_value, length-mask_fields_at fields col i j next)

get_elem?-mask_fields_at :
    (fields : List String) (col : String) (i j k : ℕ) (row : List Value)
    → get_elem? (mask_fields_at fields col i j row) k
      ≡ mask_if (mem col fields && ltb i (length row) && (j == k)) (get_elem? row k)
unfolding mask_fields_at
get_elem?-mask_fields_at [] col i j k row = rw mask_if-false
get_elem?-mask_fields_at (field ∷ fields) col i j k row =
    let b = col == field && ltb i (length row) && ltb j (length row) in
    let next = (if b then set row j masked_value else row) in
    ground (
      arith,
      eq_iff col field,
      eq_iff field col,
      get_elem?-set_masked row j k,
      length-set row j masked_value,
      get_elem?-short row k,
      get_elem?-mask_fields_at fields col i j k next,
    )

-- The columns from `j` on leave the ones before alone.
get_elem?-mask_columns_before :
    (fields : List String) (i j : ℕ) (cols : List String) (k : ℕ) (row : List Value)
    → k < j
    → get_elem? (mask_columns fields i j cols row) k ≡ get_elem? row k
unfolding mask_columns
get_elem?-mask_columns_before fields i j [] k row h = refl
get_elem?-mask_columns_before fields i j (col ∷ cols) k row h =
    let next = mask_fields_at fields col i j row in
    ground (
      arith,
      get_elem?-mask_fields_at fields col i j k row,
      mask_if-false (get_elem? row k),
      get_elem?-mask_columns_before fields i (suc j) cols k next,
    )

get_elem?-mask_columns :
    (fields : List String) (i j : ℕ) (cols : List String) (k : ℕ) (row : List Value)
    → get_elem? (mask_columns fields i j cols row) (j + k)
      ≡ mask_if (selects fields (get_elem? cols k) && ltb i (length row)) (get_elem? row (j + k))
unfolding mask_columns
get_elem?-mask_columns fields i j [] k row = rw mask_if-false
get_elem?-mask_columns fields i j (col ∷ cols) zero row =
    let next = mask_fields_at fields col i j row in
    ground (
      arith,
      get_elem?-mask_fields_at fields col i j (j + 0) row,
      get_elem?-mask_columns_before fields i (suc j) cols (j + 0) next,
    )
get_elem?-mask_columns fields i j (col ∷ cols) (suc k) row =
    let next = mask_fields_at fields col i j row in
    ground (
      arith,
      get_elem?-mask_fields_at fields col i j (j + suc k) row,
      length-mask_fields_at fields col i j row,
      get_elem?-mask_columns fields i (suc j) cols k next,
    )

get_elem?-mask_rows :
    (fields cols : List String) (i k : ℕ) (rows : List (List Value))
    → get_elem? (mask_rows fields cols i rows) k
      ≡ Option.map (mask_columns fields (i + k) 0 cols) (get_elem? rows k)
unfolding mask_rows
get_elem?-mask_rows fields cols i k [] = refl
get_elem?-mask_rows fields cols i zero (row ∷ rows) = ground arith
get_elem?-mask_rows fields cols i (suc k) (row ∷ rows) =
    ground (arith, get_elem?-mask_rows fields cols (suc i) k rows)

-- `data[i][j]`
abbrev pub cell : List (List Value) → ℕ → ℕ → Option Value
cell rows i j = elim (get_elem? rows i) [ none ↦ none | some row ↦ get_elem? row j ]

-- The code masks column `j` of row `i`: the column is selected, and the row has more than `i` cells.
abbrev pub is_masked : List String → List String → ℕ → ℕ → List Value → Bool
is_masked fields cols i j row = selects fields (get_elem? cols j) && ltb i (length row)

pub cell-mask_rows :
    (fields cols : List String) (rows : List (List Value)) (i j : ℕ) {row : List Value}
    → get_elem? rows i ≡ some row
    → cell (mask_rows fields cols 0 rows) i j
      ≡ mask_if (is_masked fields cols i j row) (get_elem? row j)
cell-mask_rows fields cols rows i j {row} h =
    ground (
      arith,
      get_elem?-mask_rows fields cols 0 i rows,
      get_elem?-mask_columns fields i 0 cols j row,
    )
