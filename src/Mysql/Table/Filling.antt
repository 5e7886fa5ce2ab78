-- ===== src/Mysql/Table/Filling.antt =====
-- What the loops that fill the table leave in memory: a chain of fields for each row.
use postfix_edm.Prelude.{
  ℕ, suc, ◌≤◌, ◌<◌, ◌≡◌, ◌≢◌, refl, ◌∙◌, List, [], ◌∷◌, ◌++◌, Option, some, length, arith,
}
use postfix_edm.Mysql.Table.{FieldValue, Cell, text, field, Heap, fill_columns}
use postfix_edm.Mysql.Table.Column.{
  Fields, IsFresh, Keeps, kept_text, Value, named_field, fill_column_lem, Value-le, Value-agree,
}

-- From the field `prev` on fields with these names and values follow, and they and their texts take up the
-- places from `lo` to `hi`.
pub data Chain (f : ℕ → Option Cell) : ℕ → Fields → ℕ → ℕ → Type 0 where
  ends : {prev lo : ℕ} {c : Cell} → f prev ≡ some c → Chain f prev [] lo lo
  links :
      {prev lo mid hi : ℕ} {name : List ℕ} {kept : Option (List ℕ)} {fields : Fields}
      {value : Option ℕ} (y z : FieldValue)
      → f prev ≡ some (field y)
      → y.next ≡ some lo
      → f lo ≡ some (field z)
      → z.field_name ≡ some (suc lo)
      → z.field_value ≡ value
      → f (suc lo) ≡ some (text (name ++ (0 ∷ [])))
      → Value f kept value (suc (suc lo)) mid
      → Chain f lo fields mid hi
      → Chain f prev ((name, kept) ∷ fields) lo hi

-- The fields of a row, as they are kept.
abbrev pub kept_row : List (List ℕ) → List (Option (List ℕ)) → Fields
kept_row [] row = []
kept_row (name ∷ names) [] = []
kept_row (name ∷ names) (v ∷ row) = (name, kept_text v) ∷ kept_row names row

-- After the loop on the columns.
pub record IsFilled (h t : Heap) (prev : ℕ) (fields : Fields) (x : FieldValue) : Type 0 where
  pub head : FieldValue
  pub name_kept : head.field_name ≡ x.field_name
  pub value_kept : head.field_value ≡ x.field_value
  pub has_head : t.cells prev ≡ some (field head)
  pub chain : Chain t.cells prev fields h.fresh t.fresh
  pub grows : h.fresh ≤ t.fresh
  pub keeps : Keeps h t prev
  pub is_fresh : IsFresh t

pub fill_columns_lem :
    (names : List (List ℕ)) (row : List (Option (List ℕ))) (prev : ℕ) (h : Heap) (x : FieldValue)
    → length row ≡ length names
    → h.cells prev ≡ some (field x)
    → prev < h.fresh
    → IsFresh h
    → (t : Heap) × (fill_columns names row prev h ≡ some t)
      × IsFilled h t prev (kept_row names row) x
unfolding fill_columns
fill_columns_lem [] row prev h x same has below free = (
  h,
  refl,
  record {
    head = x;
    name_kept = refl;
    value_kept = refl;
    has_head = has;
    chain = ends has;
    grows = omega arith;
    keeps = λ a less ne. refl;
    is_fresh = free;
  },
)
fill_columns_lem (name ∷ names) [] prev h x same has below free = absurd (omega arith)
fill_columns_lem (name ∷ names) (v ∷ row) prev h x same has below free =
    let (t, fills, l) = fill_column_lem name v prev h x has below free in
    let more = Value-le l.valued in
    let (u, rest, r) =
      fill_columns_lem names row h.fresh t (named_field h.fresh l.value) (omega arith) l.new
        (omega arith) l.is_fresh in
    let keep = λ (a : ℕ) (less : a < t.fresh) (ne : a ≢ h.fresh). r.keeps a less ne in
    let at_prev : u.cells prev ≡ some (field l.y) =
      r.keeps prev (omega arith) (λ e. omega (arith, e)) ∙ l.linked in
    (
      u,
      rw fills rest,
      record {
        head = l.y;
        name_kept = l.name_kept;
        value_kept = l.value_kept;
        has_head = at_prev;
        chain =
            links l.y r.head at_prev l.next r.has_head r.name_kept r.value_kept
              (r.keeps (suc h.fresh) (omega arith) (λ e. omega (arith, e)) ∙ l.named)
              (Value-agree l.valued (λ a low high. r.keeps a high (λ e. omega (arith, e)))) r.chain;
        grows = omega (arith, r.grows);
        keeps = λ a less ne. r.keeps a (omega arith) (λ e. omega (arith, e)) ∙ l.keeps a less ne;
        is_fresh = r.is_fresh;
      },
    )

pub Chain-le :
    {f : ℕ → Option Cell} {prev lo hi : ℕ} {fields : Fields} → Chain f prev fields lo hi → lo ≤ hi
Chain-le (ends e) = omega arith
Chain-le (links y z e1 e2 e3 e4 e5 e6 v c) = omega (arith, Value-le v, Chain-le c)

pub Chain-agree :
    {f g : ℕ → Option Cell} {prev lo hi : ℕ} {fields : Fields}
    → Chain f prev fields lo hi
    → g prev ≡ f prev
    → ((a : ℕ) → lo ≤ a → a < hi → g a ≡ f a)
    → Chain g prev fields lo hi
Chain-agree (ends e) first same = ends (first ∙ e)
Chain-agree {lo} {hi} (links {mid} y z e1 e2 e3 e4 e5 e6 v c) first same =
    let low = Value-le v in
    let high = Chain-le c in
    let at_lo = same lo (omega arith) (omega arith) in
    links y z (first ∙ e1) e2 (at_lo ∙ e3) e4 e5 (same (suc lo) (omega arith) (omega arith) ∙ e6)
      (Value-agree v (λ a p q. same a (omega arith) (omega arith)))
      (Chain-agree c at_lo (λ a p q. same a (omega arith) (omega arith)))
