-- ===== src/Mysql/Walk/Report.antt =====
-- The JSON of a result, from the table in memory.
use postfix_edm.Prelude.{
  ℕ, suc, ◌<◌, ◌^◌, ◌≡◌, refl, List, [], ◌∷◌, Option, none, some, Option-cases, inl, inr, map,
  length, ap, ◌∙◌,
}
use postfix_edm.Prelude.Memory.{◌>>=◌, bind_assoc}
use postfix_edm.Prelude.Text.{c_string}
use postfix_edm.Mysql.Table.{Heap, mysql_fill_data}
use postfix_edm.Mysql.Table.Column.{IsFresh}
use postfix_edm.Mysql.Table.Rows.{AreRows}
use postfix_edm.Mysql.Walk.{Json, add_column, mysql_result_data_convert_json}
use postfix_edm.Mysql.Walk.Found.{value_text, texts, with_fields, with_rows, walk_lem}

module _ {J : Type 0} (json : Json J) where
  -- Columns behind the first, each a string under its name.
  unfoldable pub members : List (List ℕ) → List (Option (List ℕ)) → J → Option J
  members [] row fld = some fld
  members (name ∷ names) [] fld = some fld
  members (name ∷ names) (value ∷ row) fld =
      json.add_string (c_string name) (value_text value) fld >>= members names row

  -- A row: its first value is a number and must be neither NULL nor empty.
  unfoldable pub object_of : List (List ℕ) → List (Option (List ℕ)) → Option J
  object_of [] row = some json.object
  object_of (name ∷ names) [] = some json.object
  object_of (name ∷ names) (none ∷ row) = none
  object_of (name ∷ names) (some [] ∷ row) = none
  object_of (name ∷ names) (some (c ∷ value) ∷ row) =
      members names row (json.add_number (c_string name) (c_string (c ∷ value)) json.object)

  unfoldable pub array_of : List (List ℕ) → List (List (Option (List ℕ))) → J → Option J
  array_of names [] root = some root
  array_of names (row ∷ rows) root =
      object_of names row >>= (λ fld. array_of names rows (json.add_item fld root))

  -- The JSON that stands for the rows: an array with an object for each.
  unfoldable pub json_of : List (List ℕ) → List (List (Option (List ℕ))) → Option (List ℕ)
  json_of names rows = array_of names rows json.array >>= (λ root. some (json.print root))

  members_lem :
      (names : List (List ℕ)) (row : List (Option (List ℕ))) (j : ℕ) (fld : J)
      → with_fields (add_column json) (suc j) (texts names row) fld ≡ members names row fld
  unfolding members with_fields
  members_lem [] row j fld = refl
  members_lem (name ∷ names) [] j fld = refl
  members_lem (name ∷ names) (value ∷ row) j fld =
      ap (λ k. json.add_string (c_string name) (value_text value) fld >>= k)
        (λ i fld. members_lem names row (suc j) fld i)

  object_of_lem :
      (names : List (List ℕ)) (row : List (Option (List ℕ)))
      → with_fields (add_column json) 0 (texts names row) json.object ≡ object_of names row
  unfolding object_of with_fields
  object_of_lem [] row = refl
  object_of_lem (name ∷ names) [] = refl
  object_of_lem (name ∷ names) (none ∷ row) = refl
  object_of_lem (name ∷ names) (some [] ∷ row) = refl
  object_of_lem (name ∷ names) (some (c ∷ value) ∷ row) =
      members_lem names row 0 (json.add_number (c_string name) (c_string (c ∷ value)) json.object)

  array_of_lem :
      (names : List (List ℕ)) (rows : List (List (Option (List ℕ)))) (root : J)
      → with_rows
          (λ fields root.
            with_fields (add_column json) 0 fields json.object
            >>= (λ fld. some (json.add_item fld root)))
          (map (texts names) rows)
          root
        ≡ array_of names rows root
  unfolding array_of with_rows
  array_of_lem names [] root = refl
  array_of_lem names (row ∷ rows) root = elim (Option-cases (object_of names row)) [
    | inl e ↦ rw (object_of_lem names row, e) refl
    | inr (fld, e) ↦
        rw (object_of_lem names row, e) (array_of_lem names rows (json.add_item fld root))
  ]

  -- For a result of fewer than 2^31 rows, each with a value for each of its fewer than 2^16 columns, the
  -- conversion of the table that is filled in prints the array of the rows, each the object of its names
  -- and values, the first of them added as a number and the others as strings. It fails exactly where the
  -- first value of a row is NULL or empty, or where adding a string fails.
  pub mysql_result_data_convert_json_lem :
      (names : List (List ℕ)) (rows : List (List (Option (List ℕ)))) (h : Heap)
      → AreRows names rows
      → IsFresh h
      → length rows < 2 ^ 31
      → length names < 2 ^ 16
      → (mysql_fill_data names rows h >>= (λ r. mysql_result_data_convert_json json r.0 r.1))
        ≡ json_of names rows
  unfolding mysql_result_data_convert_json json_of
  mysql_result_data_convert_json_lem names rows h right free few narrow =
      bind_assoc (mysql_fill_data names rows h) _ (λ root. some (json.print root))
      ∙ ap (λ o. o >>= (λ root. some (json.print root)))
          (walk_lem (add_column json) json.object json.add_item names rows h json.array right free
              few narrow
            ∙ array_of_lem names rows json.array)
