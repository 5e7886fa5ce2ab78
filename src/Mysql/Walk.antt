-- ===== src/Mysql/Walk.antt =====
-- c++/base/mysql.c, `mysql_result_data_convert_json`, and the loops of the clients of mysql.h: the walk over
-- the rows and the columns of a table of results.
pub mod Found
pub mod Report
use postfix_edm.Prelude.{
  ℕ, zero, suc, List, [], ◌∷◌, Option, none, some, Bool, true, false, ◌==◌, if◌then◌else◌,
}
use postfix_edm.Prelude.Memory.{◌>>=◌}
use postfix_edm.Prelude.Text.{c_string}
use postfix_edm.Mysql.Table.{
  FieldValue, Cell, text, field, table, Heap, as_field, as_table, row_place, ResultData,
}

abbrev pub as_text : Option Cell → Option (List ℕ)
as_text none = none
as_text (some (text s)) = some (c_string s)
as_text (some (field x)) = none
as_text (some (table places)) = none

-- The string a pointer leads to, if it is not NULL.
abbrev pub value_at : Option ℕ → Heap → Option (Option (List ℕ))
value_at none h = some none
value_at (some p) h = as_text (h.cells p) >>= (λ s. some (some s))

-- `pointer->next` with its name and its value.
unfoldable pub next_field : ℕ → Heap → Option (ℕ × List ℕ × Option (List ℕ))
next_field pointer h = do
  x ← as_field (h.cells pointer)
  next ← x.next
  y ← as_field (h.cells next)
  place ← y.field_name
  name ← as_text (h.cells place)
  value ← value_at y.field_value h
  some (next, name, value)

module _ {S : Type 0} where
  -- A loop on `n` columns from column `j` on, whose body is `step`.
  unfoldable pub on_columns :
      (ℕ → List ℕ → Option (List ℕ) → S → Option S) → ℕ → ℕ → ℕ → Heap → S → Option S
  on_columns step zero j pointer h s = some s
  on_columns step (suc n) j pointer h s = do
    found ← next_field pointer h
    s ← step j found.1 found.2 s
    on_columns step n (suc j) found.0 h s

  -- A loop on `n` rows from row `i` on; the body gets the head of the row.
  unfoldable pub on_rows : (ℕ → S → Option S) → ℕ → ℕ → ℕ → Heap → S → Option S
  on_rows body zero i base h s = some s
  on_rows body (suc n) i base h s = do
    places ← as_table (h.cells base)
    head ← row_place places i
    s ← body head s
    on_rows body n (suc i) base h s

-- The functions of cJSON, with atof before the one for a number, and with what a NULL does to the one for
-- a string.
pub record Json (J : Type 0) : Type 0 where
  pub array : J
  pub object : J
  pub add_item : J → J → J
  pub add_number : List ℕ → List ℕ → J → J
  pub add_string : List ℕ → Option (List ℕ) → J → Option J
  pub print : J → List ℕ

module _ {J : Type 0} (json : Json J) where
  -- The value of the first column goes through atof, which does not take NULL.
  abbrev pub add_column : ℕ → List ℕ → Option (List ℕ) → J → Option J
  add_column zero name none fld = none
  add_column zero name (some value) fld = some (json.add_number name value fld)
  add_column (suc j) name value fld = json.add_string name value fld

  unfoldable pub mysql_result_data_convert_json : ResultData → Heap → Option (List ℕ)
  mysql_result_data_convert_json r h = do
    root ←
        on_rows
          (λ head root.
            on_columns add_column r.columns 0 head h json.object
            >>= (λ fld. some (json.add_item fld root)))
          r.rows 0 r.data_place h json.array
    some (json.print root)
