-- ===== src/Config/Tests.antt =====
-- Runs of the configuration reader, and its theorem at a concrete input.
use postfix_edm.Prelude.{◌≡◌, List, [], ◌∷◌, some, false, arith}
use postfix_edm.Config.Lines.{Line, Entry, entry, remark}
use postfix_edm.Config.Load.{file_of, AreLines, config_file_reader-lines}
use postfix_edm.Config.{ConfigFileReader, config_file_reader, get_config_name}

-- " port =\t9\t# low", "# none" and "port=8".
abbrev padded : Entry
padded = record {
  lead = b' ' ∷ [];
  key = b'p' ∷ b'o' ∷ [];
  gap = b' ' ∷ [];
  pre = b'\t' ∷ [];
  value = b'9' ∷ [];
  trail = b'\t' ∷ [];
}

abbrev bare : Entry
bare = record {
  lead = [];
  key = b'p' ∷ b'o' ∷ [];
  gap = [];
  pre = [];
  value = b'8' ∷ [];
  trail = [];
}

abbrev lines : List Line
lines = entry padded (b'#' ∷ b'x' ∷ []) ∷ remark (b'#' ∷ []) ∷ remark [] ∷ entry bare [] ∷ []

lines-AreLines : AreLines lines
unfolding postfix_edm.Config.is_blank
lines-AreLines = ground arith

config_file_reader-lines_example :
    (r : ConfigFileReader) × (config_file_reader false (some (file_of lines)) ≡ some r)
    × (get_config_name r (b'p' ∷ b'o' ∷ []) ≡ some (b'9' ∷ []))
config_file_reader-lines_example =
    config_file_reader-lines false lines (b'p' ∷ b'o' ∷ []) lines-AreLines
