-- ===== src/Mysql/Table/Release.antt =====
-- The table of the results from its making to its release.
use postfix_edm.Prelude.{
  ℕ, suc, ◌^◌, ◌≤◌, ◌<◌, ◌≡◌, refl, sym, ap, ◌∙◌, List, [], ◌∷◌, ◌++◌, Option, none, some, ◌==◌,
  ltb, ==_iff, inl, inr, Bool-cases, length, length-append, append_assoc, arith,
}
use postfix_edm.Prelude.Memory.{◌>>=◌}
use postfix_edm.Mysql.Table.{
  table, Heap, put, free, free_columns, free_rows, mysql_fill_data, free_result_data,
}
use postfix_edm.Mysql.Table.Column.{Fields, IsFresh}
use postfix_edm.Mysql.Table.Filling.{Chain-le}
use postfix_edm.Mysql.Table.Rows.{
  Rows, no_rows, a_row, Rows-le, Rows-agree, AreRows, mysql_fill_data_lem, row_place-append,
}
use postfix_edm.Mysql.Table.Freeing.{free-found, free_columns_lem}

record AreGone (h t : Heap) (lo hi : ℕ) : Type 0 where
  gone : (a : ℕ) → lo ≤ a → a < hi → t.cells a ≡ none
  below : (a : ℕ) → a < lo → t.cells a ≡ h.cells a
  above : (a : ℕ) → hi ≤ a → t.cells a ≡ h.cells a
  fresh_kept : t.fresh ≡ h.fresh

free_rows_lem :
    (places done : List (Option ℕ)) (n base i : ℕ) {kept : List Fields} {lo hi : ℕ} (h : Heap)
    → Rows h.cells n kept places lo hi
    → h.cells base ≡ some (table (done ++ places))
    → length done ≡ i
    → base < lo
    → (t : Heap) × (free_rows (length places) n base i h ≡ some t) × AreGone h t lo hi
unfolding free_rows
free_rows_lem [] done n base i h no_rows has at low = (
  h,
  refl,
  record {
    gone = λ a p q. absurd (omega arith);
    below = λ a p. refl;
    above = λ a p. refl;
    fresh_kept = refl;
  },
)
free_rows_lem (_ ∷ places) done n base i h
      (a_row {fields} {lo = lo} {mid = mid} {hi = hi} count c r) has at low =
    let (k, frees', gone, f) = free_columns_lem fields h c (omega arith) in
    let frees : free_columns n lo h ≡ some k = ap (λ m. free_columns m lo h) (sym count) ∙ frees' in
    let up = Chain-le c in
    let up_more = Rows-le r in
    let rows = Rows-agree {g = k.cells} r (λ a p q. f.above a p (λ e. omega (arith, e))) in
    let has_k =
      f.below base (omega arith) (λ e. omega (arith, e))
      ∙ has
      ∙ ap (λ l. some (table l)) (sym (append_assoc done (some lo ∷ []) places)) in
    let (t, rest, g) =
      free_rows_lem places (done ++ (some lo ∷ [])) n base (suc i) k rows has_k
        (omega (arith, length-append done (some lo ∷ []))) (omega arith) in
    (
      t,
      rw (has, row_place-append done places lo i at, frees) rest,
      record {
        gone = λ a p q. elim (Bool-cases (a == lo)) [
          | inl e ↦
              g.below a (let same = (==_iff a lo).0 e in omega arith)
              ∙ ap k.cells ((==_iff a lo).0 e)
              ∙ gone
          | inr e ↦ elim (Bool-cases (ltb a mid)) [
            | inl b ↦ g.below a (ground arith) ∙ f.gone a (ground arith) (ground arith)
            | inr b ↦ g.gone a (ground arith) q
          ]
        ];
        below = λ a p. g.below a (omega arith) ∙ f.below a (omega arith) (λ e. omega (arith, e));
        above = λ a p. g.above a p ∙ f.above a (omega arith) (λ e. omega (arith, e));
        fresh_kept = g.fresh_kept ∙ f.fresh_kept;
      },
    )

-- What is left of a table that is filled in and released.
pub released :
    (names : List (List ℕ)) (rows : List (List (Option (List ℕ)))) (h : Heap)
    → AreRows names rows
    → IsFresh h
    → length rows < 2 ^ 31
    → length names < 2 ^ 16
    → (t u : Heap) × (mysql_fill_data names rows h
        ≡ some (record { data_place = h.fresh; rows = length rows; columns = length names }, t))
      × (free_result_data
            (record { data_place = h.fresh; rows = length rows; columns = length names })
            t
          ≡ some u)
      × (u.cells ≡ h.cells)
      × IsFresh u
unfolding free_result_data
released names rows h right free few narrow =
    let (t, fills, r) = mysql_fill_data_lem names rows h right free few narrow in
    let (u, frees', g) =
      free_rows_lem r.places [] (length names) h.fresh 0 t r.rows r.has_table refl (omega arith) in
    let frees : free_rows (length rows) (length names) h.fresh 0 t ≡ some u =
      ap (λ n. free_rows n (length names) h.fresh 0 t) (sym r.count_kept) ∙ frees' in
    let has = g.below h.fresh (omega arith) ∙ r.has_table in
    let last = free-found h.fresh u has in
    let up = Rows-le r.rows in
    let before : (a : ℕ) → a < h.fresh → u.cells a ≡ h.cells a = λ a less.
      g.below a (omega arith) ∙ r.keeps a (omega arith) (λ e. omega (arith, e)) ∙ ground arith in
    let after : (a : ℕ) → h.fresh < a → u.cells a ≡ none = λ a more.
      elim (Bool-cases (ltb a t.fresh)) [
        | inl e ↦ g.gone a more (ground arith)
        | inr e ↦ g.above a (ground arith) ∙ r.is_fresh a (ground arith)
      ] in
    let same : (a : ℕ) → put h.fresh none u.cells a ≡ h.cells a = λ a.
      elim (Bool-cases (ltb a h.fresh)) [
        | inl e ↦ let eq = before a (ground arith) in ground arith
        | inr e ↦
            let none_h : h.cells a ≡ none = free a (ground arith) in
            elim (Bool-cases (a == h.fresh)) [
              | inl f ↦ ground arith
              | inr f ↦ let eq = after a (ground arith) in ground arith
            ]
      ] in
    let whole : free_result_data
          (record { data_place = h.fresh; rows = length rows; columns = length names }) t
        ≡ some (record u { cells = put h.fresh none u.cells }) =
      rw frees last in
    (
      t,
      record u { cells = put h.fresh none u.cells },
      fills,
      whole,
      (λ i a. same a i),
      λ a more. same a ∙ free a (omega (arith, g.fresh_kept)),
    )

-- A result of fewer than 2^31 rows, each with a value for each of its fewer than 2^16 columns, is
-- filled in and released without an access to a place that is not in use, and no place is freed twice; the
-- memory is then as it was.
pub free_result_data_lem :
    (names : List (List ℕ)) (rows : List (List (Option (List ℕ)))) (h : Heap)
    → AreRows names rows
    → IsFresh h
    → length rows < 2 ^ 31
    → length names < 2 ^ 16
    → (mysql_fill_data names rows h >>= (λ r. free_result_data r.0 r.1) >>= (λ t. some t.cells))
      ≡ some h.cells
free_result_data_lem names rows h right free few narrow =
    let (t, u, fills, frees, same, next) = released names rows h right free few narrow in
    rw (fills, frees) (ap some same)
