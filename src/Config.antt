-- ===== src/Config.antt =====
-- c++/base/ConfigFileReader.h and ConfigFileReader.cpp: a file of lines `key = value # comment`. A
-- file is the list of its bytes; reading one outside `buf` is `none`.
pub mod Trim
pub mod Lines
pub mod Load
mod Tests
use postfix_edm.Prelude.{
  ℕ, zero, suc, ◌+◌, ◌-◌, List, [], ◌∷◌, ◌++◌, Option, none, some, Bool, true, false, ◌||◌, ◌&&◌,
  ◌==◌, leb, if◌then◌else◌, length, take, drop,
}
use postfix_edm.Prelude.Memory.{◌>>=◌}
use postfix_edm.Prelude.Text.{char_at, rtrim_loop, skip, c_string}

unfoldable pub is_blank : ℕ → Bool
is_blank c = c == b' ' || c == b'\t'

-- `_TrimSpace`. The loop at the end does not pass the beginning, since a character that is not blank
-- stands there.
unfoldable pub trim_space : List ℕ → Option (List ℕ)
trim_space name =
    let start = length name - length (skip is_blank name) in
    let ended = rtrim_loop is_blank (length name) name in
    if length (skip is_blank name) == 0
    then none
    else if leb (length ended) start
    then none
    else some (drop start ended)

abbrev pub same_text : List ℕ → List ℕ → Bool
same_text [] [] = true
same_text (c ∷ s) (d ∷ t) = c == d && same_text s t
same_text _ _ = false

-- `map<string, string>`, with its `find` and its `insert`, which keeps a value that is there.
abbrev pub ConfigMap : Type 0
ConfigMap = List (List ℕ × List ℕ)

unfoldable pub find : List ℕ → ConfigMap → Option (List ℕ)
find name [] = none
find name ((key, value) ∷ m) = if same_text key name then some value else find name m

unfoldable pub insert : List ℕ → List ℕ → ConfigMap → ConfigMap
insert key value m = elim (find key m) [ none ↦ m ++ ((key, value) ∷ []) | some _ ↦ m ]

-- strchr, which divides a string at the first such character.
unfoldable pub divide : ℕ → List ℕ → Option (List ℕ × List ℕ)
divide c [] = none
divide c (d ∷ s) = elim (divide c s) [
  | none ↦ if d == c then some ([], s) else none
  | some (l, r) ↦ if d == c then some ([], s) else some (d ∷ l, r)
]

-- `_ParseLine`.
unfoldable pub insert_both : Option (List ℕ) → Option (List ℕ) → ConfigMap → ConfigMap
insert_both (some key) (some value) m = insert key value m
insert_both _ _ m = m

unfoldable pub parse_line : List ℕ → ConfigMap → ConfigMap
parse_line line m = elim (divide b'=' line) [
  | none ↦ m
  | some (l, r) ↦ insert_both (trim_space l) (trim_space r) m
]

-- fgets with room for `n` characters: the line with its \n, or as much of it, and what follows.
unfoldable pub fgets : ℕ → List ℕ → List ℕ × List ℕ
fgets zero file = ([], file)
fgets (suc n) [] = ([], [])
fgets (suc n) (c ∷ file) =
    let more = fgets n file in if c == b'\n' then (c ∷ [], file) else (c ∷ more.0, more.1)

-- The \n at the end is removed; of an empty string the place before the buffer is read.
unfoldable pub remove_newline : List ℕ → Option (List ℕ)
remove_newline buf =
    let len = length buf in
    if len == 0
    then none
    else some (if char_at buf (len - 1) == b'\n' then take (len - 1) buf else buf)

unfoldable pub remove_comment : List ℕ → List ℕ
remove_comment buf = elim (divide b'#' buf) [ none ↦ buf | some (l, r) ↦ l ]

-- A round of the loop of `_LoadFile`, on what fgets has read.
unfoldable pub load_line : List ℕ → ConfigMap → Option ConfigMap
load_line bytes m = do
  buf ← remove_newline (c_string bytes)
  let line = remove_comment buf
  some (if length line == 0 then m else parse_line line m)

-- The loop. Each round but the last takes a byte at least, so that a round more than there are bytes is
-- enough.
unfoldable pub load_round : (ConfigMap → Option ConfigMap) → List ℕ → ConfigMap → Option ConfigMap
load_round more [] m = some m
load_round more (c ∷ s) m = load_line (c ∷ s) m >>= more

unfoldable pub load_loop : ℕ → List ℕ → ConfigMap → Option ConfigMap
load_loop zero file m = some m
load_loop (suc fuel) file m = load_round (load_loop fuel (fgets 255 file).1) (fgets 255 file).0 m

-- `CConfigFileReader`, with `m_load_ok` and `*m_config_map`.
pub record ConfigFileReader : Type 0 where
  pub load_ok : Bool
  pub config_map : ConfigMap

-- The constructor with `_LoadFile`; `none` is a file that cannot be opened. Only `_LoadFile` sets
-- `m_load_ok`, to true; `unset` is what it holds before.
unfoldable pub config_file_reader : Bool → Option (List ℕ) → Option ConfigFileReader
config_file_reader unset none = some (record { load_ok = unset; config_map = [] })
config_file_reader unset (some file) = do
  m ← load_loop (suc (length file)) file []
  some (record { load_ok = true; config_map = m })

-- `GetConfigName`; the null pointer is `none`.
unfoldable pub get_config_name : ConfigFileReader → List ℕ → Option (List ℕ)
get_config_name r name = if r.load_ok then find name r.config_map else none
