-- ===== src/Mysql/Tests.antt =====
-- Runs of `strtrim`.
use postfix_edm.Prelude.{ℕ, ◌≡◌, refl, List, [], ◌∷◌, ◌++◌, Bool, ◌==◌}
use postfix_edm.Mysql.{strtrim}
use postfix_edm.Prelude.Text.{AreAll, BeginsClean, EndsClean}

abbrev blank : ℕ → Bool
blank c = c == 32

abbrev padded : List ℕ
padded = 32 ∷ 32 ∷ 65 ∷ 32 ∷ 66 ∷ 32 ∷ []

trims : strtrim blank padded ≡ 65 ∷ 32 ∷ 66 ∷ []
unfolding strtrim postfix_edm.Mysql.strtrimr postfix_edm.Mysql.strtriml
    postfix_edm.Prelude.Text.rtrim_loop postfix_edm.Prelude.Text.skip
trims = refl
