-- ===== src/Config/Trim.antt =====
-- What `_TrimSpace` leaves of a key or a value.
use postfix_edm.Prelude.{
  ℕ, ◌+◌, ◌-◌, ◌<◌, ◌≡◌, sym, ap, ◌∙◌, List, [], ◌∷◌, ◌++◌, some, arith, length, drop,
  length-append, append_assoc,
}
use postfix_edm.Prelude.Memory.{drop_prefix}
use postfix_edm.Prelude.Text.{
  AreAll, BeginsClean, EndsClean, rtrim_loop, skip, rtrim_loop-append, skip-append,
  EndsClean-append,
}
use postfix_edm.Config.{is_blank, trim_space}

-- Text that does not begin and does not end with a blank.
pub record IsTrimmed (k : List ℕ) : Type 0 where
  pub some_text : 0 < length k
  pub begins : BeginsClean is_blank k
  pub ends : EndsClean is_blank k

pub trim_space-padded :
    (l k r : List ℕ)
    → AreAll is_blank l
    → IsTrimmed k
    → AreAll is_blank r
    → trim_space (l ++ (k ++ r)) ≡ some k
unfolding trim_space
trim_space-padded l k r hl t hr = rw (skipped, trimmed) (ground (arith, sizes, whole, cut))
  where
    begins : (m : List ℕ) → BeginsClean is_blank m → 0 < length m → BeginsClean is_blank (m ++ r)
    begins [] h n = absurd (omega arith)
    begins (c ∷ m) h n = h

    skipped : skip is_blank (l ++ (k ++ r)) ≡ k ++ r
    skipped = skip-append is_blank l (k ++ r) hl (begins k t.begins t.some_text)

    trimmed : rtrim_loop is_blank (length (l ++ (k ++ r))) (l ++ (k ++ r)) ≡ l ++ k
    trimmed =
        ap (λ s. rtrim_loop is_blank (length s) s) (sym (append_assoc l k r))
        ∙ rtrim_loop-append is_blank (l ++ k) r (EndsClean-append is_blank l k t.some_text t.ends)
            hr

    sizes : length (l ++ (k ++ r)) - length (k ++ r) ≡ length l
    sizes = omega (arith, length-append l (k ++ r))

    whole : length (l ++ k) ≡ length l + length k
    whole = length-append l k

    cut : drop (length (l ++ (k ++ r)) - length (k ++ r)) (l ++ k) ≡ k
    cut = drop_prefix (length (l ++ (k ++ r)) - length (k ++ r)) l k sizes
