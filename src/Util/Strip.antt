-- ===== src/Util/Strip.antt =====
-- What `stripLineSep` takes off.
use postfix_edm.Prelude.{ℕ, ◌≡◌, refl, List, ◌++◌, some, length}
use postfix_edm.Prelude.Text.{AreAll, EndsClean, rtrim_loop, rtrim_loop-splits}
use postfix_edm.Util.{strip_line_sep, is_line_sep}

-- Stripping takes the line separators off the end and nothing else.
pub strip_line_sep-splits :
    (str : List ℕ)
    → (kept : List ℕ) × (seps : List ℕ) × (strip_line_sep (some str) ≡ some kept)
      × (str ≡ kept ++ seps)
      × AreAll is_line_sep seps
      × EndsClean is_line_sep kept
unfolding strip_line_sep
strip_line_sep-splits str =
    let (seps, split, all, clean) = rtrim_loop-splits is_line_sep (length str) str refl in
    (rtrim_loop is_line_sep (length str) str, seps, refl, split, all, clean)
