-- ===== src/Util/Tests.antt =====
-- Runs of the helpers on texts, and their theorems at concrete inputs.
use postfix_edm.Prelude.{ℕ, ◌≡◌, ◌↔◌, refl, List, [], ◌∷◌, some, arith, length}
use postfix_edm.Util.{
  StrExplode, str_explode, strip_line_sep, is_line_sep, get_extension, get_tick_count,
}
use postfix_edm.Util.Explode.{join, NoneHas, str_explode_lem}
use postfix_edm.Util.Extension.{HasExtension, get_extension_iff}

-- "a,,b,"
abbrev commas : List ℕ
commas = b'a' ∷ b',' ∷ b',' ∷ b'b' ∷ b',' ∷ []

explodes :
    str_explode commas b','
    ≡ record { item_cnt = 4; item_list = (b'a' ∷ []) ∷ [] ∷ (b'b' ∷ []) ∷ [] ∷ [] }
unfolding str_explode postfix_edm.Util.count_items postfix_edm.Util.split_items
explodes = refl

str_explode_lem_example :
    (join b',' (str_explode commas b',').item_list ≡ commas)
    × NoneHas b',' (str_explode commas b',').item_list
    × (length (str_explode commas b',').item_list ≡ (str_explode commas b',').item_cnt)
str_explode_lem_example = str_explode_lem commas b',' (omega arith)

-- "x\r\n"
abbrev ended : List ℕ
ended = b'x' ∷ b'\r' ∷ b'\n' ∷ []

-- "d.x/y.gz"
abbrev archive : List ℕ
archive = b'd' ∷ b'.' ∷ b'x' ∷ b'/' ∷ b'y' ∷ b'.' ∷ b'g' ∷ b'z' ∷ []

get_extension_iff_example :
    (get_extension archive ≡ some (b'g' ∷ b'z' ∷ [])) ↔ HasExtension archive (b'g' ∷ b'z' ∷ [])
get_extension_iff_example = get_extension_iff archive (b'g' ∷ b'z' ∷ [])

finds_gz : get_extension archive ≡ some (b'g' ∷ b'z' ∷ [])
unfolding get_extension postfix_edm.Util.last_from postfix_edm.Util.after_period
finds_gz = refl

ticks : get_tick_count 1400000000 999999 ≡ 1400000000999
unfolding get_tick_count
ticks = refl
