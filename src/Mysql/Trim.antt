-- ===== src/Mysql/Trim.antt =====
-- What is trimmed off, and what is left.
use postfix_edm.Prelude.{ℕ, ◌≡◌, ap, ◌∙◌, List, ◌++◌, Bool, refl, length, append_assoc}
use postfix_edm.Prelude.Text.{AreAll, BeginsClean, EndsClean, rtrim_loop-splits, skip-splits}
use postfix_edm.Mysql.{strtrimr, strtriml, strtrim}

-- Trimming takes the spaces off both ends and nothing else: the string is some spaces, what is left
-- and some spaces, and what is left neither begins nor ends with one.
pub strtrim-splits :
    (isspace : ℕ → Bool) (s : List ℕ)
    → (l : List ℕ) × (r : List ℕ) × (s ≡ l ++ (strtrim isspace s ++ r))
      × AreAll isspace l
      × AreAll isspace r
      × BeginsClean isspace (strtrim isspace s)
      × EndsClean isspace (strtrim isspace s)
unfolding strtrim strtrimr strtriml
strtrim-splits isspace s =
    let (r, right, spaces, clean) = rtrim_loop-splits isspace (length s) s refl in
    let (l, left, spaces', begins, ends) = skip-splits isspace (strtrimr isspace s) clean in
    (
      l,
      r,
      right ∙ ap (λ t. t ++ r) left ∙ append_assoc l (strtrim isspace s) r,
      spaces',
      spaces,
      begins,
      ends,
    )
