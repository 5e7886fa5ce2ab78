-- ===== src/Mysql/Query.antt =====
-- c++/base/mysql.c: the connection and the queries. What the MySQL library does is a parameter: whether a call
-- succeeds, and what the database has as the answer to a query.
use postfix_edm.Prelude.{
  ℕ, ◌+◌, ◌*◌, ◌%◌, ◌^◌, List, [], ◌∷◌, ◌++◌, Option, none, some, Bool, ◌==◌, leb, ◌&&◌,
  if◌then◌else◌, length, replicate,
}
use postfix_edm.Prelude.Int.{ℤ, pos, negsuc}
use postfix_edm.Prelude.Memory.{◌>>=◌, store}
use postfix_edm.Prelude.Text.{char_at}
use postfix_edm.Client.Mail.{codes}
use postfix_edm.Mysql.{strtrim}
use postfix_edm.Mysql.Table.{Heap, ResultData, mysql_fill_data}

-- `mysql_connect_info_t`; NULL is `none`, and `client_flag` is set by nobody.
pub record MysqlConnectInfo : Type 0 where
  pub host : List ℕ
  pub port : ℕ
  pub user : List ℕ
  pub pwd : List ℕ
  pub db : List ℕ
  pub unix_socket : Option (List ℕ)
  pub client_flag : ℕ

unfoldable pub mysql_connection_info_init : MysqlConnectInfo → MysqlConnectInfo
mysql_connection_info_init info = record info {
  host = codes "127.0.0.1";
  port = 3306;
  db = codes "test";
  unix_socket = none;
  user = codes "root";
  pwd = codes "root";
}

-- The answer to a query: an error, nothing to read, or the names of the columns and the rows.
pub data QueryAnswer : Type 0 where
  query_fails : QueryAnswer
  no_result : QueryAnswer
  result : List (List ℕ) → List (List (Option (List ℕ))) → QueryAnswer

-- The calls of the library on one connection.
pub record MysqlLibrary : Type 0 where
  pub init : Bool
  pub real_connect : MysqlConnectInfo → Bool
  pub select_db : List ℕ → Bool
  pub query : List ℕ → QueryAnswer
  pub insert_id : List ℕ → ℕ
  pub affected_rows : List ℕ → ℕ

module _ (lib : MysqlLibrary) where
  -- Whether the set of characters can be set makes no difference.
  unfoldable pub mysql_user_connect : MysqlConnectInfo → ℤ
  mysql_user_connect info =
      if lib.init then (if lib.real_connect info then pos 0 else negsuc 0) else negsuc 0

  module _ (isspace : ℕ → Bool) where
    abbrev pub lower : ℕ → ℕ
    lower c = if leb 65 c && leb c 90 then c + 32 else c

    -- strncasecmp with the first six characters.
    unfoldable pub is_insert : List ℕ → Bool
    is_insert sql =
        lower (char_at sql 0) == b'i'
        && (lower (char_at sql 1) == b'n'
            && (lower (char_at sql 2) == b's'
                && (lower (char_at sql 3) == b'e'
                    && (lower (char_at sql 4) == b'r' && lower (char_at sql 5) == b't'))))

    abbrev pub number_of : QueryAnswer → List ℕ → ℕ → ℤ × ℕ
    number_of query_fails sql old = (negsuc 0, old)
    number_of no_result sql old =
        (pos 0, if is_insert sql then lib.insert_id sql else lib.affected_rows sql)
    number_of (result names rows) sql old =
        (pos 0, if is_insert sql then lib.insert_id sql else lib.affected_rows sql)

    -- The code that is returned and `*result`, which was `old`.
    unfoldable pub mysql_execute : List ℕ → ℕ → ℤ × ℕ
    mysql_execute sql old =
        let trimmed = strtrim isspace sql in number_of (lib.query trimmed) trimmed old

    abbrev pub table_of :
        QueryAnswer → Option ResultData → Heap → Option (ℤ × Option ResultData × Heap)
    table_of query_fails old h = some (negsuc 0, old, h)
    table_of no_result old h = some (negsuc 0, old, h)
    table_of (result names rows) old h = do
      filled ← mysql_fill_data names rows h
      some (pos 0, some filled.0, filled.1)

    -- The code that is returned, `*result_data_ptr`, which was `old`, where `none` is what was not set, and
    -- the memory.
    unfoldable pub mysql_select :
        List ℕ → Option ResultData → Heap → Option (ℤ × Option ResultData × Heap)
    mysql_select sql old h = table_of (lib.query (strtrim isspace sql)) old h

-- The string that `escape` prints to a block of zeros; 64 bits count its bytes.
unfoldable pub cap_mysql_escape_string : (List ℕ → List ℕ) → List ℕ → Option (List ℕ)
cap_mysql_escape_string escape from =
    store (replicate ((length from * 2 + 1) % 2 ^ 64) 0) 0 (escape from ++ (0 ∷ []))
