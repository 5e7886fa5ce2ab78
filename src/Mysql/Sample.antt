-- ===== src/Mysql/Sample.antt =====
-- A result with two columns, and a library that has it for every query.
use postfix_edm.Prelude.{ℕ, List, [], ◌∷◌, Option, none, some, true}
use postfix_edm.Client.Mail.{codes}
use postfix_edm.Mysql.Table.{Heap}
use postfix_edm.Mysql.Query.{MysqlConnectInfo, MysqlLibrary, result}

abbrev pub no_heap : Heap
no_heap = record { cells = λ a. none; fresh = 16 }

abbrev pub two_names : List (List ℕ)
two_names = codes "id" ∷ codes "To" ∷ []

abbrev pub two_rows : List (List (Option (List ℕ)))
two_rows = (some (codes "7") ∷ some (codes "a@b") ∷ []) ∷ (some (codes "8") ∷ none ∷ []) ∷ []

abbrev pub local : MysqlConnectInfo
local = record {
  host = [];
  port = 3306;
  user = [];
  pwd = [];
  db = [];
  unix_socket = none;
  client_flag = 0;
}

abbrev pub willing : MysqlLibrary
willing = record {
  init = true;
  real_connect = λ info. true;
  select_db = λ db. true;
  query = λ sql. result two_names two_rows;
  insert_id = λ sql. 1;
  affected_rows = λ sql. 2;
}
