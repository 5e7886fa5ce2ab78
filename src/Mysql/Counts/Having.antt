-- ===== src/Mysql/Counts/Having.antt =====
-- Whether there are mails to send, from the answer of the database.
use postfix_edm.Prelude.{
  ℕ, suc, ◌^◌, ◌<◌, ◌≡◌, refl, ap, ◌∙◌, List, [], ◌∷◌, Option, none, some, Bool, true, false, ◌==◌,
  length, arith,
}
use postfix_edm.Prelude.Memory.{◌>>=◌}
use postfix_edm.Mysql.{strtrim}
use postfix_edm.Mysql.Table.{Cell, table, Heap, ResultData, mysql_fill_data}
use postfix_edm.Mysql.Table.Column.{Fields, IsFresh, kept_text}
use postfix_edm.Mysql.Table.Filling.{links}
use postfix_edm.Mysql.Table.Rows.{Rows, a_row, AreRows, mysql_fill_data_lem}
use postfix_edm.Mysql.Table.Release.{released}
use postfix_edm.Mysql.Walk.{next_field, value_at}
use postfix_edm.Mysql.Walk.Found.{read_text, value_at-Value, value_text}
use postfix_edm.Mysql.Query.{
  MysqlConnectInfo, MysqlLibrary, QueryAnswer, query_fails, no_result, result, table_of,
  mysql_user_connect, mysql_select,
}
use postfix_edm.Mysql.Counts.{first_value, is_set, is_zero, have_of, selected, have_send_info}

first_value-Rows :
    {n lo hi : ℕ} {name : List ℕ} {kept : Option (List ℕ)} {fields : Fields} {rows : List Fields}
    {places : List (Option ℕ)} (a : ResultData) (h : Heap)
    → Rows h.cells n (((name, kept) ∷ fields) ∷ rows) places lo hi
    → h.cells a.data_place ≡ some (table places)
    → first_value a h ≡ some (read_text kept)
unfolding first_value next_field
first_value-Rows {kept} a h (a_row e (links y z e1 e2 e3 e4 e5 e6 v c) r) has =
    let value = ap (λ o. value_at o h) e5 ∙ value_at-Value h v in
    rw (has, e1, e2, e3, e4, e6, value) refl

is_set-kept_text : (v : Option (List ℕ)) → is_set (read_text (kept_text v)) ≡ is_set (value_text v)
is_set-kept_text none = refl
is_set-kept_text (some []) = refl
is_set-kept_text (some (c ∷ v)) = refl

-- What a result says: whether its first value is there and is not empty.
abbrev pub first_is_set : List (List (Option (List ℕ))) → Bool
first_is_set [] = false
first_is_set ([] ∷ rows) = false
first_is_set ((v ∷ row) ∷ rows) = is_set (value_text v)

abbrev pub IsAnswer : QueryAnswer → Type 0
IsAnswer query_fails = Unit
IsAnswer no_result = Unit
IsAnswer (result names rows) =
    (0 < length names) × (length names < 2 ^ 16) × (length rows < 2 ^ 31) × AreRows names rows

-- What comes of an answer.
abbrev pub outcome : QueryAnswer → (ℕ → Option Cell) → Option (Bool × (ℕ → Option Cell))
outcome query_fails cells = none
outcome no_result cells = none
outcome (result names rows) cells = some (first_is_set rows, cells)

first_value-filled :
    (names : List (List ℕ)) (row : List (Option (List ℕ))) (rows : List (List (Option (List ℕ))))
    (h : Heap)
    → AreRows names (row ∷ rows)
    → IsFresh h
    → suc (length rows) < 2 ^ 31
    → 0 < length names
    → length names < 2 ^ 16
    → (mysql_fill_data names (row ∷ rows) h
        >>= (λ r. first_value r.0 r.1 >>= (λ v. some (is_set v))))
      ≡ some (first_is_set (row ∷ rows))
first_value-filled [] row rows h right free few some_names narrow = absurd (omega arith)
first_value-filled (name ∷ names) [] rows h right free few some_names narrow =
    absurd (omega (arith, right.0))
first_value-filled (name ∷ names) (v ∷ row) rows h right free few some_names narrow =
    let (t, fills, r) =
      mysql_fill_data_lem (name ∷ names) ((v ∷ row) ∷ rows) h right free few narrow in
    rw fills (
      rw
        (first_value-Rows
          (record { data_place = h.fresh; rows = suc (length rows); columns = suc (length names) })
          t r.rows r.has_table)
        (ap some (is_set-kept_text v)))

module _ (lib : MysqlLibrary) (isspace : ℕ → Bool) where
  from_answer :
      (a : QueryAnswer) (h : Heap)
      → IsAnswer a
      → IsFresh h
      → (table_of lib isspace a none h
          >>= (λ x. x.1 >>= (λ r. some (r, x.2)))
          >>= have_of
          >>= (λ r. some (r.0, (r.1).cells)))
        ≡ outcome a h.cells
  unfolding have_of
  from_answer query_fails h right free = refl
  from_answer no_result h right free = refl
  from_answer (result names []) h right free =
      let (t, u, fills, frees, same, next) = released names [] h right.3 free right.2 right.1 in
      rw (fills, frees) (ap (λ c. some (false, c)) same)
  from_answer (result names (row ∷ rows)) h right free =
      let (t, u, fills, frees, same, next) =
        released names (row ∷ rows) h right.3 free right.2 right.1 in
      let found =
        rw fills at (first_value-filled names row rows h right.3 free right.2 right.0 right.1) in
      let more : (suc (length rows) == 0) ≡ false = ground arith in
      rw (fills, more, found, frees) (ap (λ c. some (first_is_set (row ∷ rows), c)) same)

module _ (lib : MysqlLibrary) (isspace : ℕ → Bool) (info : MysqlConnectInfo) where
  -- With a connection, an answer that is a result of at least one and fewer than 2^16 columns and fewer than
  -- 2^31 rows says whether its first value is there and is not empty, and of its table nothing is left in
  -- memory; after a query that fails or has no result, one is used that was not set.
  pub have_send_info_lem :
      (sql : List ℕ) (h : Heap)
      → is_zero (mysql_user_connect lib info) ≡ true
      → lib.select_db info.db ≡ true
      → IsAnswer (lib.query (strtrim isspace sql))
      → IsFresh h
      → (have_send_info lib isspace info sql h >>= (λ r. some (r.0, (r.1).cells)))
        ≡ outcome (lib.query (strtrim isspace sql)) h.cells
  unfolding have_send_info selected mysql_select
  have_send_info_lem sql h connects has_db right free =
      rw (connects, has_db) (from_answer lib isspace (lib.query (strtrim isspace sql)) h right free)
