-- ===== src/Mysql/Table/Freeing.antt =====
-- What the loops that free the table do to the memory.
use postfix_edm.Prelude.{
  ℕ, suc, ◌≤◌, ◌<◌, ◌≡◌, ◌≢◌, refl, ap, ◌∙◌, List, [], ◌∷◌, Option, none, some, ◌==◌, ltb, ==_iff,
  inl, inr, Bool-cases, length, arith,
}
use postfix_edm.Mysql.Table.{FieldValue, Cell, field, Heap, put, free_found, free, free_columns}
use postfix_edm.Mysql.Table.Column.{Fields, Value, no_value, a_value, Value-le, differs}
use postfix_edm.Mysql.Table.Filling.{Chain, ends, links, Chain-le, Chain-agree}

-- The places from `lo` to `hi` are no longer in use; the others are as they were, but for `prev`.
pub record IsFreed (h t : Heap) (prev lo hi : ℕ) : Type 0 where
  pub gone : (a : ℕ) → lo ≤ a → a < hi → t.cells a ≡ none
  pub below : (a : ℕ) → a < lo → a ≢ prev → t.cells a ≡ h.cells a
  pub above : (a : ℕ) → hi ≤ a → a ≢ prev → t.cells a ≡ h.cells a
  pub fresh_kept : t.fresh ≡ h.fresh

pub free-found :
    (a : ℕ) (h : Heap) {c : Cell}
    → h.cells a ≡ some c
    → free (some a) h ≡ some (record h { cells = put a none h.cells })
unfolding free free_found
free-found a h e = rw e refl

free-Value :
    {f : ℕ → Option Cell} {s : Option (List ℕ)} {v : Option ℕ} {p q : ℕ} (h : Heap)
    → Value f s v p q
    → ((a : ℕ) → p ≤ a → a < q → h.cells a ≡ f a)
    → (t : Heap) × (free v h ≡ some t)
      × ((a : ℕ) → p ≤ a → a < q → t.cells a ≡ none)
      × ((a : ℕ) → a < p → t.cells a ≡ h.cells a)
      × ((a : ℕ) → q ≤ a → t.cells a ≡ h.cells a)
      × (t.fresh ≡ h.fresh)
unfolding free free_found
free-Value h no_value same =
    (h, refl, λ a low high. absurd (omega arith), λ a less. refl, λ a more. refl, refl)
free-Value h (a_value {p} e) same = (
  record h { cells = put p none h.cells },
  rw (same p (omega arith) (omega arith) ∙ e) refl,
  λ a low high. ground arith,
  λ a less. ground arith,
  λ a more. ground arith,
  refl,
)

-- A round of the loop on the columns.
record IsPassed (h t : Heap) (prev lo mid : ℕ) : Type 0 where
  gone_prev : t.cells prev ≡ none
  gone : (a : ℕ) → lo < a → a < mid → t.cells a ≡ none
  at_lo : t.cells lo ≡ h.cells lo
  below : (a : ℕ) → a < lo → a ≢ prev → t.cells a ≡ h.cells a
  above : (a : ℕ) → mid ≤ a → a ≢ prev → t.cells a ≡ h.cells a
  fresh_kept : t.fresh ≡ h.fresh

free_column_lem :
    (n : ℕ) {prev lo mid : ℕ} {kept : Option (List ℕ)} {value : Option ℕ} {c : Cell} (h : Heap)
    (y z : FieldValue)
    → h.cells prev ≡ some (field y)
    → y.next ≡ some lo
    → h.cells lo ≡ some (field z)
    → z.field_name ≡ some (suc lo)
    → z.field_value ≡ value
    → h.cells (suc lo) ≡ some c
    → Value h.cells kept value (suc (suc lo)) mid
    → prev < lo
    → (t : Heap) × (free_columns (suc n) prev h ≡ free_columns n lo t) × IsPassed h t prev lo mid
unfolding free_columns
free_column_lem n {prev} {lo} {mid} h y z e1 e2 e3 e4 e5 e6 v less =
    let bound = Value-le v in
    let h1 : Heap = record h { cells = put prev none h.cells } in
    let f1 = free-found prev h e1 in
    let g1 : h1.cells lo ≡ some (field z) = ground arith in
    let g2 : h1.cells (suc lo) ≡ h.cells (suc lo) = ground arith in
    let h2 : Heap = record h { cells = put (suc lo) none h1.cells } in
    let f2 : free z.field_name h1 ≡ some h2 =
      ap (λ o. free o h1) e4 ∙ free-found (suc lo) h1 (g2 ∙ e6) in
    let g3 : h2.cells lo ≡ some (field z) = ground arith in
    let (t, f3, gone, below, above, fresh) = free-Value h2 v (λ a low high. ground arith) in
    let f3' : free z.field_value h2 ≡ some t = ap (λ o. free o h2) e5 ∙ f3 in
    (
      t,
      rw (e1, f1, e2, g1, f2, g3, f3') refl,
      record {
        gone_prev = below prev (omega arith) ∙ ground arith;
        gone = λ a low high. elim (Bool-cases (a == suc lo)) [
          | inl e ↦
              let same : a ≡ suc lo = (==_iff a (suc lo)).0 e in
              below a (omega arith) ∙ ground arith
          | inr e ↦ gone a (ground arith) high
        ];
        at_lo = below lo (omega arith) ∙ ground arith;
        below = λ a low ne. let other = differs ne in below a (omega arith) ∙ ground arith;
        above = λ a high ne. let other = differs ne in above a high ∙ ground arith;
        fresh_kept = fresh;
      },
    )

pub free_columns_lem :
    (fields : Fields) {prev lo hi : ℕ} (h : Heap)
    → Chain h.cells prev fields lo hi
    → prev < lo
    → (t : Heap) × (free_columns (length fields) prev h ≡ some t)
      × (t.cells prev ≡ none)
      × IsFreed h t prev lo hi
unfolding free_columns
free_columns_lem [] h (ends {prev} {lo} e) less = (
  record h { cells = put prev none h.cells },
  free-found prev h e,
  ground arith,
  record {
    gone = λ a low high. absurd (omega arith);
    below = λ a low ne. let other = differs ne in ground arith;
    above = λ a high ne. let other = differs ne in ground arith;
    fresh_kept = refl;
  },
)
free_columns_lem (_ ∷ fields) h
      (links {prev} {lo = lo} {mid = mid} {hi = hi} y z e1 e2 e3 e4 e5 e6 v c) less =
    let bound = Value-le v in
    let (k, passes, p) = free_column_lem (length fields) h y z e1 e2 e3 e4 e5 e6 v less in
    let chain =
      Chain-agree {g = k.cells} c p.at_lo (λ a low high. p.above a low (λ e. omega (arith, e))) in
    let (t, rest, gone, r) = free_columns_lem fields k chain (omega arith) in
    (
      t,
      passes ∙ rest,
      r.below prev (omega arith) (λ e. omega (arith, e)) ∙ p.gone_prev,
      record {
        gone = λ a low high. elim (Bool-cases (a == lo)) [
          | inl e ↦ ap t.cells ((==_iff a lo).0 e) ∙ gone
          | inr e ↦
              let ne : a ≢ lo = λ same. absurd (let yes = (==_iff a lo).1 same in cc) in
              elim (Bool-cases (ltb a mid)) [
                | inl f ↦ r.below a (ground arith) ne ∙ p.gone a (ground arith) (ground arith)
                | inr f ↦ r.gone a (ground arith) high
              ]
        ];
        below = λ a low ne. r.below a (omega arith) (λ e. omega (arith, e)) ∙ p.below a low ne;
        above = λ a high ne.
            let high_mid = Chain-le c in
            r.above a high (λ e. omega (arith, e)) ∙ p.above a (omega arith) ne;
        fresh_kept = r.fresh_kept ∙ p.fresh_kept;
      },
    )
