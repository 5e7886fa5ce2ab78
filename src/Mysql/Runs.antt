-- ===== src/Mysql/Runs.antt =====
-- The table of results and its readers at concrete inputs.
use postfix_edm.Prelude.{ℕ, ◌≡◌, refl, List, [], ◌++◌, Option, none, some, Bool, true, false, arith}
use postfix_edm.Prelude.Memory.{◌>>=◌}
use postfix_edm.Client.Mail.{codes}
use postfix_edm.Mysql.Table.{Cell, mysql_fill_data, free_result_data}
use postfix_edm.Mysql.Table.Column.{IsFresh}
use postfix_edm.Mysql.Table.Release.{free_result_data_lem}
use postfix_edm.Mysql.Walk.{Json, mysql_result_data_convert_json}
use postfix_edm.Mysql.Walk.Report.{json_of, mysql_result_data_convert_json_lem}
use postfix_edm.Mysql.Query.{mysql_user_connect}
use postfix_edm.Mysql.Counts.{have_send_info}
use postfix_edm.Mysql.Counts.Having.{have_send_info_lem}
use postfix_edm.Mysql.Sample.{no_heap, two_names, two_rows, local, willing}

no_heap-IsFresh : IsFresh no_heap
no_heap-IsFresh = λ a more. refl

free_result_data_lem_example :
    (mysql_fill_data two_names two_rows no_heap
      >>= (λ r. free_result_data r.0 r.1)
      >>= (λ t. some t.cells))
    ≡ some no_heap.cells
free_result_data_lem_example =
    free_result_data_lem two_names two_rows no_heap (refl, (refl, tt)) no_heap-IsFresh (omega arith)
      (omega arith)

-- A stand-in for the JSON library: an object is the text of its members.
abbrev plain_json : Json (List ℕ)
plain_json = record {
  array = [];
  object = [];
  add_item = λ item root. root ++ item;
  add_number = λ name value fld. fld ++ (name ++ value);
  add_string =
      λ name value fld. elim value [ none ↦ some fld | some s ↦ some (fld ++ (name ++ s)) ];
  print = λ root. root;
}

mysql_result_data_convert_json_lem_example :
    (mysql_fill_data two_names two_rows no_heap
      >>= (λ r. mysql_result_data_convert_json plain_json r.0 r.1))
    ≡ json_of plain_json two_names two_rows
mysql_result_data_convert_json_lem_example =
    mysql_result_data_convert_json_lem plain_json two_names two_rows no_heap (refl, (refl, tt))
      no_heap-IsFresh (omega arith) (omega arith)

json_of_two : json_of plain_json two_names two_rows ≡ some (codes "id7Toa@bid8")
unfolding json_of postfix_edm.Mysql.Walk.Report.array_of postfix_edm.Mysql.Walk.Report.object_of
    postfix_edm.Mysql.Walk.Report.members
json_of_two = refl

have_send_info_lem_example :
    ◌>>=◌ {B = Bool × (ℕ → Option Cell)}
      (have_send_info willing (λ c. false) local (codes "select") no_heap)
      (λ r. some (r.0, (r.1).cells))
    ≡ some (true, no_heap.cells)
unfolding mysql_user_connect
have_send_info_lem_example =
    have_send_info_lem willing (λ c. false) local (codes "select") no_heap refl refl
      (omega arith, omega arith, omega arith, (refl, (refl, tt))) no_heap-IsFresh
