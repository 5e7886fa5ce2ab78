-- ===== src/Util.antt =====
-- c++/base/util.h and util.cpp: the helpers on texts, and the count of references. A string is the
-- list of its characters without the 0 at its end; a pointer that may be null is an `Option`.
pub mod Explode
pub mod Strip
pub mod Extension
mod Tests
use postfix_edm.Prelude.{
  ℕ, zero, suc, ◌+◌, ◌-◌, ◌*◌, ◌/◌, ◌%◌, ◌^◌, List, [], ◌∷◌, ◌++◌, Option, none, some, Bool, true,
  false, ◌||◌, ◌==◌, if◌then◌else◌, length, take,
}
use postfix_edm.Prelude.Text.{rtrim_loop, has}
use postfix_edm.Buffer.{add32}

-- `CStrExplode`, with `m_item_cnt` and `m_item_list`.
pub record StrExplode : Type 0 where
  pub item_cnt : ℕ
  pub item_list : List (List ℕ)

-- The first loop of the constructor.
unfoldable pub count_items : ℕ → List ℕ → ℕ → ℕ
count_items seperator [] cnt = cnt
count_items seperator (c ∷ pos) cnt =
    count_items seperator pos (if c == seperator then add32 cnt 1 else cnt)

-- The second loop, with the characters from `start` to `pos`, and what follows it. An item that it
-- finds goes to the next place of the list.
unfoldable pub split_items : ℕ → List ℕ → List ℕ → List (List ℕ)
split_items seperator start [] = start ∷ []
split_items seperator start (c ∷ pos) =
    let cut = start ∷ split_items seperator [] pos in
    let longer = split_items seperator (start ++ (c ∷ [])) pos in
    if c == seperator then cut else longer

unfoldable pub str_explode : List ℕ → ℕ → StrExplode
str_explode str seperator = record {
  item_cnt = count_items seperator str 1;
  item_list = split_items seperator [] str;
}

unfoldable pub is_line_sep : ℕ → Bool
is_line_sep c = c == b'\r' || c == b'\n'

-- A 0 at the last place ends the string there; the length is fuel enough, since a round that goes on
-- takes a character off.
unfoldable pub strip_line_sep : Option (List ℕ) → Option (List ℕ)
strip_line_sep none = none
strip_line_sep (some str) = some (rtrim_loop is_line_sep (length str) str)

-- strrchr: what begins with the last `c`.
unfoldable pub last_from : ℕ → List ℕ → Option (List ℕ)
last_from c [] = none
last_from c (d ∷ s) = elim (last_from c s) [
  | some t ↦ some t
  | none ↦ if d == c then some (d ∷ s) else none
]

-- `getExtension`; a null pointer is `none`, and the result points behind the period.
unfoldable pub after_period : List ℕ → Option (List ℕ)
after_period [] = none
after_period (c ∷ s) = if has b'/' (c ∷ s) then none else some s

unfoldable pub get_extension : List ℕ → Option (List ℕ)
get_extension path = elim (last_from b'.' path) [ none ↦ none | some s ↦ after_period s ]

-- `get_tick_count`: milliseconds.
unfoldable pub get_tick_count : ℕ → ℕ → ℕ
get_tick_count tv_sec tv_usec = (tv_sec * 1000 + tv_usec / 1000) % 2 ^ 64
