-- ===== src/Mysql/Table.antt =====
-- c++/base/mysql.c: the table of the results of a query, in the memory of the process. A place that malloc
-- returns is not in use; memory does not run out, which the code does not handle. An access to a place that
-- is not in use, and a free of it, is undefined in C; here it is `none`.
pub mod Column
pub mod Filling
pub mod Rows
pub mod Freeing
pub mod Release
use postfix_edm.Prelude.{
  ℕ, zero, suc, ◌+◌, ◌-◌, ◌%◌, ◌^◌, List, [], ◌∷◌, ◌++◌, Option, none, some, Bool, true, false,
  ◌==◌, ltb, leb, if◌then◌else◌, length, get_elem?, set, replicate,
}
use postfix_edm.Prelude.Memory.{◌>>=◌}
use postfix_edm.Prelude.Text.{c_string}

-- `mysql_field_value_t`.
pub record FieldValue : Type 0 where
  pub field_name : Option ℕ
  pub field_value : Option ℕ
  pub next : Option ℕ

pub data Cell : Type 0 where
  text : List ℕ → Cell
  field : FieldValue → Cell
  table : List (Option ℕ) → Cell

-- What is at each place, and the places from which on none was ever in use.
pub record Heap : Type 0 where
  pub cells : ℕ → Option Cell
  pub fresh : ℕ

abbrev pub put : ℕ → Option Cell → (ℕ → Option Cell) → ℕ → Option Cell
put a c f b = if a == b then c else f b

unfoldable pub calloc : Cell → Heap → ℕ × Heap
calloc c h = (h.fresh, record { cells = put h.fresh (some c) h.cells; fresh = suc h.fresh })

unfoldable pub free_found : Option Cell → ℕ → Heap → Option Heap
free_found none a h = none
free_found (some c) a h = some (record h { cells = put a none h.cells })

unfoldable pub free : Option ℕ → Heap → Option Heap
free none h = some h
free (some a) h = free_found (h.cells a) a h

abbrev pub as_field : Option Cell → Option FieldValue
as_field none = none
as_field (some (text s)) = none
as_field (some (field x)) = some x
as_field (some (table places)) = none

abbrev pub as_table : Option Cell → Option (List (Option ℕ))
as_table none = none
as_table (some (text s)) = none
as_table (some (field x)) = none
as_table (some (table places)) = some places

unfoldable pub set_field : ℕ → (FieldValue → FieldValue) → Heap → Option Heap
set_field a change h = do
  x ← as_field (h.cells a)
  some (record h { cells = put a (some (field (change x))) h.cells })

abbrev pub empty_field : FieldValue
empty_field = record { field_name = none; field_value = none; next = none }

-- A block of zeros, one longer than the value, that the value is copied to up to its first 0.
abbrev pub copied : List ℕ → List ℕ
copied v = c_string v ++ replicate (suc (length v) - length (c_string v)) 0

-- `fieldValueLengths` has 0 for NULL and for the empty value.
unfoldable pub fill_value : Option (List ℕ) → ℕ → Heap → Option Heap
fill_value none current h = some h
fill_value (some []) current h = some h
fill_value (some (c ∷ v)) current h =
    let (place, h1) = calloc (text (copied (c ∷ v))) h in
    set_field current (λ x. record x { field_value = some place }) h1

-- A round of the loop on the columns: the field that is added, and the memory.
unfoldable pub fill_column : List ℕ → Option (List ℕ) → ℕ → Heap → Option (ℕ × Heap)
fill_column name v prev h = do
  let (current, h1) = calloc (field empty_field) h
  h2 ← set_field prev (λ x. record x { next = some current }) h1
  let (place, h3) = calloc (text (name ++ (0 ∷ []))) h2
  h4 ← set_field current (λ x. record x { field_name = some place }) h3
  h5 ← fill_value v current h4
  some (current, h5)

-- A row that is shorter than the names is read out of bounds.
unfoldable pub fill_columns : List (List ℕ) → List (Option (List ℕ)) → ℕ → Heap → Option Heap
fill_columns [] row prev h = some h
fill_columns (name ∷ names) [] prev h = none
fill_columns (name ∷ names) (v ∷ row) prev h =
    fill_column name v prev h >>= (λ r. fill_columns names row r.0 r.1)

unfoldable pub set_row : ℕ → ℕ → ℕ → Heap → Option Heap
set_row base i head h = do
  places ← as_table (h.cells base)
  (if ltb i (length places)
      then some (record h { cells = put base (some (table (set places i (some head)))) h.cells })
      else none)

-- The loop on the rows, from row `i` on.
unfoldable pub fill_rows :
    List (List ℕ) → List (List (Option (List ℕ))) → ℕ → ℕ → Heap → Option Heap
fill_rows names [] base i h = some h
fill_rows names (row ∷ rows) base i h = do
  let (head, h1) = calloc (field empty_field) h
  h2 ← fill_columns names row head h1
  h3 ← set_row base i head h2
  fill_rows names rows base (suc i) h3

-- `result_data_t`.
pub record ResultData : Type 0 where
  pub data_place : ℕ
  pub rows : ℕ
  pub columns : ℕ

-- The names of the columns and the rows are what the MySQL library has of the result. The number of rows
-- is an int: where it is negative, calloc fails, and the first row is written to a null pointer.
unfoldable pub mysql_fill_data :
    List (List ℕ) → List (List (Option (List ℕ))) → Heap → Option (ResultData × Heap)
mysql_fill_data names rows h =
    let rows_num = length rows % 2 ^ 32 in
    if leb (2 ^ 31) rows_num then none else (do
      let (base, h1) = calloc (table (replicate rows_num none)) h
      h2 ← fill_rows names rows base 0 h1
      some (record { data_place = base; rows = rows_num; columns = length names % 2 ^ 16 }, h2))

-- The loop on the columns, with the free behind it.
unfoldable pub free_columns : ℕ → ℕ → Heap → Option Heap
free_columns zero prev h = free (some prev) h
free_columns (suc n) prev h = do
  x ← as_field (h.cells prev)
  h1 ← free (some prev) h
  current ← x.next
  y ← as_field (h1.cells current)
  h2 ← free y.field_name h1
  z ← as_field (h2.cells current)
  h3 ← free z.field_value h2
  free_columns n current h3

abbrev pub row_place : List (Option ℕ) → ℕ → Option ℕ
row_place places i = get_elem? places i >>= (λ p. p)

-- The loop on the rows, `n` of them from row `i` on.
unfoldable pub free_rows : ℕ → ℕ → ℕ → ℕ → Heap → Option Heap
free_rows zero columns base i h = some h
free_rows (suc n) columns base i h = do
  places ← as_table (h.cells base)
  head ← row_place places i
  h1 ← free_columns columns head h
  free_rows n columns base (suc i) h1

unfoldable pub free_result_data : ResultData → Heap → Option Heap
free_result_data r h = free_rows r.rows r.columns r.data_place 0 h >>= free (some r.data_place)
