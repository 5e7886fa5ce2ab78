-- ===== src/Mysql/Walk/Found.antt =====
-- A walk over a table that was filled in finds the names and the values of the result.
use postfix_edm.Prelude.{
  ℕ, suc, ◌-◌, ◌^◌, ◌≤◌, ◌<◌, ◌≡◌, refl, sym, ap, ◌∙◌, List, [], ◌∷◌, ◌++◌, map, Option, none, some,
  false, ◌==◌, inl, inr, Bool-cases, length, replicate, length-append, append_assoc, arith,
}
use postfix_edm.Prelude.Memory.{◌>>=◌}
use postfix_edm.Prelude.Text.{has, c_string, c_string-ended}
use postfix_edm.Mysql.Table.{table, Heap, copied, mysql_fill_data}
use postfix_edm.Mysql.Table.Column.{Fields, Value, no_value, a_value, IsFresh}
use postfix_edm.Mysql.Table.Filling.{Chain, ends, links, kept_row}
use postfix_edm.Mysql.Table.Rows.{
  Rows, no_rows, a_row, AreRows, kept_rows, mysql_fill_data_lem, row_place-append,
}
use postfix_edm.Mysql.Walk.{value_at, next_field, on_columns, on_rows}

-- The name and the value as strings.
abbrev pub value_text : Option (List ℕ) → Option (List ℕ)
value_text none = none
value_text (some []) = none
value_text (some (c ∷ v)) = some (c_string (c ∷ v))

abbrev pub texts : List (List ℕ) → List (Option (List ℕ)) → Fields
texts [] row = []
texts (name ∷ names) [] = []
texts (name ∷ names) (v ∷ row) = (c_string name, value_text v) ∷ texts names row

has-c_string : (s : List ℕ) → has 0 (c_string s) ≡ false
has-c_string [] = refl
has-c_string (c ∷ s) = elim (Bool-cases (c == 0)) [
  | inl e ↦ rw e refl
  | inr e ↦ rw (e, e) (has-c_string s)
]

length-c_string : (s : List ℕ) → length (c_string s) ≤ length s
length-c_string [] = omega arith
length-c_string (c ∷ s) =
    let ih = length-c_string s in
    elim (Bool-cases (c == 0)) [ inl e ↦ rw e (omega arith) | inr e ↦ rw e (omega arith) ]

c_string-copied : (v : List ℕ) → c_string (copied v) ≡ c_string v
c_string-copied v =
    let bound = length-c_string v in
    let n : suc (length v) - length (c_string v) ≡ suc (length v - length (c_string v)) =
      omega arith in
    rw n
      (c_string-ended (c_string v) (replicate (length v - length (c_string v)) 0) (has-c_string v))

c_string-name : (s : List ℕ) → c_string (s ++ (0 ∷ [])) ≡ c_string s
c_string-name [] = refl
c_string-name (c ∷ s) = elim (Bool-cases (c == 0)) [
  | inl e ↦ rw e refl
  | inr e ↦ rw (e, c_string-name s) refl
]

-- What a reader finds of the fields that are kept.
abbrev pub read_text : Option (List ℕ) → Option (List ℕ)
read_text none = none
read_text (some s) = some (c_string s)

abbrev read_fields : Fields → Fields
read_fields [] = []
read_fields ((name, kept) ∷ fields) =
    (c_string (name ++ (0 ∷ [])), read_text kept) ∷ read_fields fields

read_fields-kept_row :
    (names : List (List ℕ)) (row : List (Option (List ℕ)))
    → read_fields (kept_row names row) ≡ texts names row
read_fields-kept_row [] row = refl
read_fields-kept_row (name ∷ names) [] = refl
read_fields-kept_row (name ∷ names) (none ∷ row) =
    rw (c_string-name name, read_fields-kept_row names row) refl
read_fields-kept_row (name ∷ names) (some [] ∷ row) =
    rw (c_string-name name, read_fields-kept_row names row) refl
read_fields-kept_row (name ∷ names) (some (c ∷ v) ∷ row) =
    rw (c_string-name name, c_string-copied (c ∷ v), read_fields-kept_row names row) refl

pub value_at-Value :
    {s : Option (List ℕ)} {v : Option ℕ} {p q : ℕ} (h : Heap)
    → Value h.cells s v p q
    → value_at v h ≡ some (read_text s)
value_at-Value h no_value = refl
value_at-Value h (a_value e) = rw e refl

module _ {S : Type 0} where
  -- A body on the fields of a row, as a fold.
  unfoldable pub with_fields :
      (ℕ → List ℕ → Option (List ℕ) → S → Option S) → ℕ → Fields → S → Option S
  with_fields step j [] s = some s
  with_fields step j ((name, value) ∷ fields) s =
      step j name value s >>= with_fields step (suc j) fields

  -- A body on the rows, as a fold.
  unfoldable pub with_rows : (Fields → S → Option S) → List Fields → S → Option S
  with_rows body [] s = some s
  with_rows body (fields ∷ rows) s = body fields s >>= with_rows body rows

  on_columns_lem :
      (step : ℕ → List ℕ → Option (List ℕ) → S → Option S) (fields : Fields) (j : ℕ)
      {prev lo hi : ℕ} (h : Heap) (s : S)
      → Chain h.cells prev fields lo hi
      → on_columns step (length fields) j prev h s ≡ with_fields step j (read_fields fields) s
  unfolding on_columns with_fields next_field
  on_columns_lem step [] j h s (ends e) = refl
  on_columns_lem step (_ ∷ fields) j h s
        (links {name = name} {kept = kept} y z e1 e2 e3 e4 e5 e6 v c) =
      let value : value_at z.field_value h ≡ some (read_text kept) =
        ap (λ o. value_at o h) e5 ∙ value_at-Value h v in
      rw (e1, e2, e3, e4, e6, value)
        (ap (λ k. step j (c_string (name ++ (0 ∷ []))) (read_text kept) s >>= k)
          (λ i s. on_columns_lem step fields (suc j) h s c i))

module _ {S : Type 0} where
  on_rows_lem :
      (body : ℕ → S → Option S) (whole : Fields → S → Option S) (n base i : ℕ) {kept : List Fields}
      (places done : List (Option ℕ)) {lo hi : ℕ} (h : Heap) (s : S)
      → ((fields : Fields) (head from to : ℕ) (s : S)
          → length fields ≡ n
          → Chain h.cells head fields from to
          → body head s ≡ whole (read_fields fields) s)
      → Rows h.cells n kept places lo hi
      → h.cells base ≡ some (table (done ++ places))
      → length done ≡ i
      → on_rows body (length places) i base h s ≡ with_rows whole (map read_fields kept) s
  unfolding on_rows with_rows
  on_rows_lem body whole n base i [] done h s same no_rows has at = refl
  on_rows_lem body whole n base i (_ ∷ places) done h s same
        (a_row {fields} {lo = lo} {mid = mid} e c r) has at =
      let moved = has ∙ ap (λ l. some (table l)) (sym (append_assoc done (some lo ∷ []) places)) in
      rw (has, row_place-append done places lo i at, same fields lo (suc lo) mid s e c)
        (ap (λ k. whole (read_fields fields) s >>= k)
          (λ j s.
            on_rows_lem body whole n base (suc i) places (done ++ (some lo ∷ [])) h s same r moved
              (omega (arith, length-append done (some lo ∷ []))) j))

read_fields-kept_rows :
    (names : List (List ℕ)) (rows : List (List (Option (List ℕ))))
    → map read_fields (kept_rows names rows) ≡ map (texts names) rows
read_fields-kept_rows names [] = refl
read_fields-kept_rows names (row ∷ rows) =
    rw (read_fields-kept_row names row, read_fields-kept_rows names rows) refl

-- A loop on the rows, with one on the columns inside, over a table that was filled in.
pub walk_lem :
    {R S : Type 0} (step : ℕ → List ℕ → Option (List ℕ) → R → Option R) (first : R)
    (last : R → S → S) (names : List (List ℕ)) (rows : List (List (Option (List ℕ)))) (h : Heap)
    (s : S)
    → AreRows names rows
    → IsFresh h
    → length rows < 2 ^ 31
    → length names < 2 ^ 16
    → (mysql_fill_data names rows h >>= (λ r.
        on_rows
          (λ head s. on_columns step (r.0).columns 0 head r.1 first >>= (λ x. some (last x s)))
          (r.0).rows
          0
          (r.0).data_place
          r.1
          s))
      ≡ with_rows
          (λ fields s. with_fields step 0 fields first >>= (λ x. some (last x s)))
          (map (texts names) rows)
          s
walk_lem {R} {S} step first last names rows h s right free few narrow =
    let (t, fills, r) = mysql_fill_data_lem names rows h right free few narrow in
    let body : ℕ → S → Option S =
      λ head s. on_columns step (length names) 0 head t first >>= (λ x. some (last x s)) in
    let whole : Fields → S → Option S =
      λ fields s. with_fields step 0 fields first >>= (λ x. some (last x s)) in
    let found =
      on_rows_lem body whole (length names) h.fresh 0 r.places [] t s
        (λ fields head from to s e c.
          ap (λ m. on_columns step m 0 head t first >>= (λ x. some (last x s))) (sym e)
          ∙ ap (λ o. o >>= (λ x. some (last x s))) (on_columns_lem step fields 0 t first c))
        r.rows r.has_table refl in
    rw fills (
      ap (λ m. on_rows body m 0 h.fresh t s) (sym r.count_kept)
      ∙ found
      ∙ ap (λ l. with_rows whole l s) (read_fields-kept_rows names rows))
