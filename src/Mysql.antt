-- ===== src/Mysql.antt =====
-- c++/base/mysql.c: `strtrim`, which the queries go through. A string is the list of its characters
-- without the 0 at its end; `isspace` is the C library's, and a parameter.
pub mod Trim
pub mod Table
pub mod Walk
pub mod Query
pub mod Counts
pub mod Sample
mod Runs
mod Tests
use postfix_edm.Prelude.{ℕ, List, Bool, length}
use postfix_edm.Prelude.Text.{rtrim_loop, skip}

module _ (isspace : ℕ → Bool) where
  unfoldable pub strtrimr : List ℕ → List ℕ
  strtrimr s = rtrim_loop isspace (length s) s

  -- The loop, then the copy to the front; the second condition of the loop ends it at the 0.
  unfoldable pub strtriml : List ℕ → List ℕ
  strtriml s = skip isspace s

  unfoldable pub strtrim : List ℕ → List ℕ
  strtrim s = strtriml (strtrimr s)
