-- ===== src/Mysql/Counts.antt =====
-- The functions that ask the database for one value: `_haveSendInfo` of c++/client/worker.cpp,
-- `_getTotalNum` of c++/server/manager.cpp and `getSentEmailNum` of c++/server/monitoring.cpp. A
-- connection that fails ends the program by an assertion; that, and the use of a result that was not set,
-- is `none` here.
pub mod Having
use postfix_edm.Prelude.{
  ℕ, ◌-◌, ◌%◌, ◌^◌, List, Option, none, some, Bool, true, false, ◌==◌, if◌then◌else◌,
}
use postfix_edm.Prelude.Int.{ℤ, pos, negsuc}
use postfix_edm.Prelude.Memory.{◌>>=◌}
use postfix_edm.Mysql.Table.{Heap, as_table, row_place, ResultData, free_result_data}
use postfix_edm.Mysql.Walk.{next_field}
use postfix_edm.Mysql.Query.{MysqlConnectInfo, MysqlLibrary, mysql_user_connect, mysql_select}

-- `(*data)->next->fieldValue`.
unfoldable pub first_value : ResultData → Heap → Option (Option (List ℕ))
first_value r h = do
  places ← as_table (h.cells r.data_place)
  head ← row_place places 0
  found ← next_field head h
  some found.2

abbrev pub is_set : Option (List ℕ) → Bool
is_set none = false
is_set (some v) = true

abbrev pub is_zero : ℤ → Bool
is_zero (pos n) = n == 0
is_zero (negsuc n) = false

-- An int as the number of 16 bits.
abbrev pub to_uint16 : ℤ → ℕ
to_uint16 (pos n) = n % 2 ^ 16
to_uint16 (negsuc n) = 2 ^ 16 - 1 - n % 2 ^ 16

-- What `_haveSendInfo` makes of the table, which it releases.
unfoldable pub have_of : ResultData × Heap → Option (Bool × Heap)
have_of a = do
  have ← if (a.0).rows == 0 then some false else (first_value a.0 a.1 >>= (λ v. some (is_set v)))
  h ← free_result_data a.0 a.1
  some (have, h)

module _ (lib : MysqlLibrary) (isspace : ℕ → Bool) (info : MysqlConnectInfo) where
  -- What is selected once the assertions hold; the code that mysql_select returns is not looked at.
  unfoldable pub selected : List ℕ → Heap → Option (ResultData × Heap)
  selected sql h =
      if is_zero (mysql_user_connect lib info)
      then (if lib.select_db info.db
          then (mysql_select lib isspace sql none h >>= (λ a. a.1 >>= (λ r. some (r, a.2))))
          else none)
      else none

  unfoldable pub have_send_info : List ℕ → Heap → Option (Bool × Heap)
  have_send_info sql h = selected sql h >>= have_of

  -- Neither of the two releases the result. atoi does not take NULL.
  module _ (atoi : List ℕ → ℤ) where
    unfoldable pub get_total_num : List ℕ → Heap → Option (ℕ × Heap)
    get_total_num sql h = do
      a ← selected sql h
      n ←
          if (a.0).rows == 0
          then some 0
          else (first_value a.0 a.1 >>= (λ o. o >>= (λ v. some (to_uint16 (atoi v)))))
      some (n, a.1)

    unfoldable pub get_sent_email_num : List ℕ → Heap → Option (ℤ × Heap)
    get_sent_email_num sql h = do
      a ← selected sql h
      n ←
          if (a.0).rows == 0
          then some (pos 0)
          else (first_value a.0 a.1 >>= (λ o. o >>= (λ v. some (atoi v))))
      some (n, a.1)
