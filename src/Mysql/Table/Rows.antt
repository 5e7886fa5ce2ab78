-- ===== src/Mysql/Table/Rows.antt =====
-- The whole table in memory, as `mysql_fill_data` leaves it.
use postfix_edm.Prelude.{
  leb, false, ℕ, zero, suc, ◌%◌, ◌^◌, ◌≤◌, ◌<◌, ◌≡◌, refl, sym, ap, ◌∙◌, List, [], ◌∷◌, ◌++◌,
  Option, none, some, true, ltb, length, set, replicate, length-append, append_assoc, arith,
}
use postfix_edm.Mysql.Table.{
  Cell, field, table, Heap, put, calloc, row_place, empty_field, set_row, fill_rows,
  mysql_fill_data,
}
use postfix_edm.Mysql.Table.Column.{Fields, IsFresh, Keeps, differs}
use postfix_edm.Mysql.Table.Filling.{Chain, kept_row, fill_columns_lem, Chain-le, Chain-agree}

-- The rows, each a chain of `n` fields behind its head.
pub data Rows (f : ℕ → Option Cell) (n : ℕ) : List Fields → List (Option ℕ) → ℕ → ℕ → Type 0 where
  no_rows : {lo : ℕ} → Rows f n [] [] lo lo
  a_row :
      {fields : Fields} {kept : List Fields} {places : List (Option ℕ)} {lo mid hi : ℕ}
      → length fields ≡ n
      → Chain f lo fields (suc lo) mid
      → Rows f n kept places mid hi
      → Rows f n (fields ∷ kept) (some lo ∷ places) lo hi

pub Rows-le :
    {f : ℕ → Option Cell} {n : ℕ} {kept : List Fields} {places : List (Option ℕ)} {lo hi : ℕ}
    → Rows f n kept places lo hi
    → lo ≤ hi
Rows-le no_rows = omega arith
Rows-le (a_row e c r) = omega (arith, Chain-le c, Rows-le r)

pub Rows-agree :
    {f g : ℕ → Option Cell} {n : ℕ} {kept : List Fields} {places : List (Option ℕ)} {lo hi : ℕ}
    → Rows f n kept places lo hi
    → ((a : ℕ) → lo ≤ a → a < hi → g a ≡ f a)
    → Rows g n kept places lo hi
Rows-agree no_rows same = no_rows
Rows-agree (a_row {lo = first} {mid = mid} {hi = last} e c r) same =
    let low = Chain-le c in
    let high = Rows-le r in
    a_row e
      (Chain-agree c (same first (omega arith) (omega arith))
        (λ a p q. same a (omega arith) (omega arith)))
      (Rows-agree r (λ a p q. same a (omega arith) (omega arith)))

-- Every row has a value for each column.
abbrev pub AreRows : List (List ℕ) → List (List (Option (List ℕ))) → Type 0
AreRows names [] = Unit
AreRows names (row ∷ rows) = (length row ≡ length names) × AreRows names rows

abbrev pub kept_rows : List (List ℕ) → List (List (Option (List ℕ))) → List Fields
kept_rows names [] = []
kept_rows names (row ∷ rows) = kept_row names row ∷ kept_rows names rows

length-kept_row :
    (names : List (List ℕ)) (row : List (Option (List ℕ)))
    → length row ≡ length names
    → length (kept_row names row) ≡ length names
length-kept_row [] row e = refl
length-kept_row (name ∷ names) [] e = absurd (omega (arith, e))
length-kept_row (name ∷ names) (v ∷ row) e = ap suc (length-kept_row names row (omega arith))

set-append :
    (done rest : List (Option ℕ)) (o v : Option ℕ)
    → set (done ++ (o ∷ rest)) (length done) v ≡ (done ++ (v ∷ [])) ++ rest
set-append [] rest o v = refl
set-append (d ∷ done) rest o v = ap (λ l. d ∷ l) (set-append done rest o v)

pub record AreFilled (h t : Heap) (base n count : ℕ) (done : List (Option ℕ)) (kept : List Fields)
    : Type 0 where
  pub places : List (Option ℕ)
  pub rows : Rows t.cells n kept places h.fresh t.fresh
  pub has_table : t.cells base ≡ some (table (done ++ places))
  pub count_kept : length places ≡ count
  pub keeps : Keeps h t base
  pub is_fresh : IsFresh t

set_row-next :
    (base head : ℕ) (done rest : List (Option ℕ)) (h : Heap)
    → h.cells base ≡ some (table (done ++ (none ∷ rest)))
    → set_row base (length done) head h
      ≡ some (record h {
        cells = put base (some (table ((done ++ (some head ∷ [])) ++ rest))) h.cells;
      })
unfolding set_row
set_row-next base head done rest h e =
    let fits : ltb (length done) (length (done ++ (none ∷ rest))) ≡ true =
      let n = length-append done (none ∷ rest) in ground arith in
    rw (e, fits, set-append done rest none (some head)) refl

fill_rows_lem :
    (names : List (List ℕ)) (rows : List (List (Option (List ℕ)))) (base i : ℕ)
    (done : List (Option ℕ)) (h : Heap)
    → AreRows names rows
    → length done ≡ i
    → h.cells base ≡ some (table (done ++ replicate (length rows) none))
    → base < h.fresh
    → IsFresh h
    → (t : Heap) × (fill_rows names rows base i h ≡ some t)
      × AreFilled h t base (length names) (length rows) done (kept_rows names rows)
unfolding fill_rows calloc
fill_rows_lem names [] base i done h right at has below free = (
  h,
  refl,
  record {
    places = [];
    rows = no_rows;
    has_table = has;
    count_kept = refl;
    keeps = λ a less ne. refl;
    is_fresh = free;
  },
)
fill_rows_lem names (row ∷ rows) base i done h right at has below free =
    let h1 : Heap = record {
      cells = put h.fresh (some (field empty_field)) h.cells;
      fresh = suc h.fresh;
    } in
    let e1 : h1.cells h.fresh ≡ some (field empty_field) = ground arith in
    let free1 : IsFresh h1 = λ a more. let e = free a (omega arith) in ground arith in
    let (h2, fills, c) =
      fill_columns_lem names row h.fresh h1 empty_field right.0 e1 (omega arith) free1 in
    let same : h2.cells base ≡ h.cells base =
      c.keeps base (omega arith) (λ e. omega (arith, e)) ∙ ground arith in
    let h3 : Heap = record h2 {
      cells =
          put base (some (table ((done ++ (some h.fresh ∷ [])) ++ replicate (length rows) none)))
            h2.cells;
    } in
    let sets : set_row base i h.fresh h2 ≡ some h3 =
      ap (λ j. set_row base j h.fresh h2) (sym at)
      ∙ set_row-next base h.fresh done (replicate (length rows) none) h2 (same ∙ has) in
    let free3 : IsFresh h3 =
      λ a more. let e = c.is_fresh a more in let g = c.grows in ground arith in
    let e3 : h3.cells base
        ≡ some (table ((done ++ (some h.fresh ∷ [])) ++ replicate (length rows) none)) =
      ground arith in
    let grows = c.grows in
    let (t, rest, r) =
      fill_rows_lem names rows base (suc i) (done ++ (some h.fresh ∷ [])) h3 right.1
        (omega (arith, length-append done (some h.fresh ∷ []))) e3 (omega arith) free3 in
    let kept : (a : ℕ) → h.fresh ≤ a → a < h2.fresh → t.cells a ≡ h2.cells a =
      λ a low high. r.keeps a high (λ e. omega (arith, e)) ∙ ground arith in
    (
      t,
      rw (fills, sets) rest,
      record {
        places = some h.fresh ∷ r.places;
        rows =
            a_row (length-kept_row names row right.0)
              (Chain-agree c.chain (kept h.fresh (omega arith) (omega arith))
                (λ a p q. kept a (omega arith) q))
              r.rows;
        has_table =
            r.has_table ∙ ap (λ l. some (table l)) (append_assoc done (some h.fresh ∷ []) r.places);
        count_kept = ap suc r.count_kept;
        keeps = λ a less ne.
            let other = differs ne in
            r.keeps a (omega arith) ne
            ∙ (let k = c.keeps a (omega arith) (λ e. omega (arith, e)) in ground arith);
        is_fresh = r.is_fresh;
      },
    )

pub row_place-append :
    (done places : List (Option ℕ)) (p i : ℕ)
    → length done ≡ i
    → row_place (done ++ (some p ∷ places)) i ≡ some p
row_place-append [] places p i e = ap (λ j. row_place (some p ∷ places) j) (sym e)
row_place-append (d ∷ done) places p zero e = absurd (omega (arith, e))
row_place-append (d ∷ done) places p (suc i) e = row_place-append done places p i (omega arith)

-- What `mysql_fill_data` returns and leaves.
pub mysql_fill_data_lem :
    (names : List (List ℕ)) (rows : List (List (Option (List ℕ)))) (h : Heap)
    → AreRows names rows
    → IsFresh h
    → length rows < 2 ^ 31
    → length names < 2 ^ 16
    → (t : Heap) × (mysql_fill_data names rows h
        ≡ some (record { data_place = h.fresh; rows = length rows; columns = length names }, t))
      × AreFilled
          (record {
            cells = put h.fresh (some (table (replicate (length rows) none))) h.cells;
            fresh = suc h.fresh;
          })
          t
          h.fresh
          (length names)
          (length rows)
          []
          (kept_rows names rows)
unfolding mysql_fill_data calloc
mysql_fill_data_lem names rows h right free few narrow =
    let h1 : Heap = record {
      cells = put h.fresh (some (table (replicate (length rows) none))) h.cells;
      fresh = suc h.fresh;
    } in
    let e1 : h1.cells h.fresh ≡ some (table (replicate (length rows) none)) = ground arith in
    let free1 : IsFresh h1 = λ a more. let e = free a (omega arith) in ground arith in
    let (t, fills, r) =
      fill_rows_lem names rows h.fresh 0 [] h1 right refl e1 (omega arith) free1 in
    let n : length rows % 2 ^ 32 ≡ length rows = omega arith in
    let m : length names % 2 ^ 16 ≡ length names = omega arith in
    let small : leb (2 ^ 31) (length rows) ≡ false = ground arith in
    (t, rw (n, small, fills, m) refl, r)
