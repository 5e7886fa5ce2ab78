-- ===== src/Mysql/Table/Column.antt =====
-- A field that is added to a row, with its two texts in memory.
use postfix_edm.Prelude.{
  ℕ, suc, ◌≤◌, ◌<◌, ◌≡◌, ◌≢◌, refl, sym, ◌∙◌, List, [], ◌∷◌, ◌++◌, Option, none, some, false, ◌==◌,
  inl, inr, Bool-cases, ==_iff, arith,
}
use postfix_edm.Prelude.Memory.{◌>>=◌}
use postfix_edm.Mysql.Table.{
  FieldValue, Cell, text, field, Heap, put, calloc, set_field, empty_field, copied, fill_value,
  fill_column,
}

-- No place from `fresh` on is in use.
abbrev pub IsFresh : Heap → Type 0
IsFresh h = (a : ℕ) → h.fresh ≤ a → h.cells a ≡ none

-- The text of a value, if there is one, at the place where it is to be.
pub data Value (f : ℕ → Option Cell) : Option (List ℕ) → Option ℕ → ℕ → ℕ → Type 0 where
  no_value : {p : ℕ} → Value f none none p p
  a_value : {s : List ℕ} {p : ℕ} → f p ≡ some (text s) → Value f (some s) (some p) p (suc p)

-- The names and the values of the fields of a row, as they are kept.
abbrev pub Fields : Type 0
Fields = List (List ℕ × Option (List ℕ))

-- What is kept of a value.
abbrev pub kept_text : Option (List ℕ) → Option (List ℕ)
kept_text none = none
kept_text (some []) = none
kept_text (some (c ∷ v)) = some (copied (c ∷ v))

-- Nothing but `prev` and places that were not in use has changed.
abbrev pub Keeps : Heap → Heap → ℕ → Type 0
Keeps h t prev = (a : ℕ) → a < h.fresh → a ≢ prev → t.cells a ≡ h.cells a

-- After a round of the loop on the columns.
pub record IsLinked (h t : Heap) (prev : ℕ) (x : FieldValue) (name : List ℕ)
    (kept : Option (List ℕ)) : Type 0 where
  pub value : Option ℕ
  pub y : FieldValue
  pub name_kept : y.field_name ≡ x.field_name
  pub value_kept : y.field_value ≡ x.field_value
  pub linked : t.cells prev ≡ some (field y)
  pub next : y.next ≡ some h.fresh
  pub new :
      t.cells h.fresh
      ≡ some (field (record { field_name = some (suc h.fresh); field_value = value; next = none }))
  pub named : t.cells (suc h.fresh) ≡ some (text (name ++ (0 ∷ [])))
  pub valued : Value t.cells kept value (suc (suc h.fresh)) t.fresh
  pub keeps : Keeps h t prev
  pub is_fresh : IsFresh t

pub differs : {a b : ℕ} → a ≢ b → (b == a) ≡ false
differs {a} {b} ne = elim (Bool-cases (b == a)) [
  | inl e ↦ absurd (ne (sym ((==_iff b a).0 e)))
  | inr e ↦ e
]

set_field-found :
    (a : ℕ) (change : FieldValue → FieldValue) (h : Heap) (x : FieldValue)
    → h.cells a ≡ some (field x)
    → set_field a change h ≡ some (record h { cells = put a (some (field (change x))) h.cells })
unfolding set_field
set_field-found a change h x e = rw e refl

abbrev pub named_field : ℕ → Option ℕ → FieldValue
named_field lo value = record { field_name = some (suc lo); field_value = value; next = none }

-- The memory with a field more, without its value.
abbrev with_field : List ℕ → ℕ → FieldValue → Heap → Heap
with_field name prev x h = record {
  cells = put h.fresh (some (field (named_field h.fresh none))) (
      put (suc h.fresh) (some (text (name ++ (0 ∷ [])))) (
        put prev (some (field (record x { next = some h.fresh })))
          (put h.fresh (some (field empty_field)) h.cells)));
  fresh = suc (suc h.fresh);
}

with_field-filled :
    (name : List ℕ) (v : Option (List ℕ)) (prev : ℕ) (h : Heap) (x : FieldValue)
    → h.cells prev ≡ some (field x)
    → prev < h.fresh
    → fill_column name v prev h
      ≡ (fill_value v h.fresh (with_field name prev x h) >>= (λ t. some (h.fresh, t)))
unfolding fill_column calloc
with_field-filled name v prev h x has below =
    let f1 = put h.fresh (some (field empty_field)) h.cells in
    let h1 : Heap = record { cells = f1; fresh = suc h.fresh } in
    let e1 : f1 prev ≡ some (field x) = ground arith in
    let e2 = set_field-found prev (λ x. record x { next = some h.fresh }) h1 x e1 in
    let h3 : Heap = record {
      cells =
          put (suc h.fresh) (some (text (name ++ (0 ∷ []))))
            (put prev (some (field (record x { next = some h.fresh }))) f1);
      fresh = suc (suc h.fresh);
    } in
    let e3 : h3.cells h.fresh ≡ some (field empty_field) = ground arith in
    let e4 =
      set_field-found h.fresh (λ x. record x { field_name = some (suc h.fresh) }) h3 empty_field
        e3 in
    rw (e2, e4) refl

with_field-IsLinked :
    (name : List ℕ) (prev : ℕ) (h : Heap) (x : FieldValue)
    → prev < h.fresh
    → IsFresh h
    → IsLinked h (with_field name prev x h) prev x name none
with_field-IsLinked name prev h x below free = record {
  value = none;
  y = record x { next = some h.fresh };
  name_kept = refl;
  value_kept = refl;
  linked = ground arith;
  next = refl;
  new = ground arith;
  named = ground arith;
  valued = no_value;
  keeps = λ a less ne. let other : (prev == a) ≡ false = differs ne in ground arith;
  is_fresh = λ a more. let e = free a (omega arith) in ground arith;
}

-- The memory with the text of the value as well.
abbrev with_value : List ℕ → ℕ → Heap → Heap
with_value v lo h = record {
  cells =
      put lo (some (field (named_field lo (some h.fresh))))
        (put h.fresh (some (text (copied v))) h.cells);
  fresh = suc h.fresh;
}

with_value-IsLinked :
    (name v : List ℕ) (prev : ℕ) (h : Heap) (x : FieldValue)
    → prev < h.fresh
    → IsFresh h
    → IsLinked h (with_value v h.fresh (with_field name prev x h)) prev x name (some (copied v))
with_value-IsLinked name v prev h x below free = record {
  value = some (suc (suc h.fresh));
  y = record x { next = some h.fresh };
  name_kept = refl;
  value_kept = refl;
  linked = ground arith;
  next = refl;
  new = ground arith;
  named = ground arith;
  valued = a_value {s = copied v} (ground arith);
  keeps = λ a less ne. let other : (prev == a) ≡ false = differs ne in ground arith;
  is_fresh = λ a more. let e = free a (omega arith) in ground arith;
}

pub fill_column_lem :
    (name : List ℕ) (v : Option (List ℕ)) (prev : ℕ) (h : Heap) (x : FieldValue)
    → h.cells prev ≡ some (field x)
    → prev < h.fresh
    → IsFresh h
    → (t : Heap) × (fill_column name v prev h ≡ some (h.fresh, t))
      × IsLinked h t prev x name (kept_text v)
unfolding fill_value calloc
fill_column_lem name none prev h x has below free = (
  with_field name prev x h,
  with_field-filled name none prev h x has below,
  with_field-IsLinked name prev h x below free,
)
fill_column_lem name (some []) prev h x has below free = (
  with_field name prev x h,
  with_field-filled name (some []) prev h x has below,
  with_field-IsLinked name prev h x below free,
)
fill_column_lem name (some (c ∷ v)) prev h x has below free =
    let t = with_field name prev x h in
    let h1 : Heap = record {
      cells = put t.fresh (some (text (copied (c ∷ v)))) t.cells;
      fresh = suc t.fresh;
    } in
    let e1 : h1.cells h.fresh ≡ some (field (named_field h.fresh none)) = ground arith in
    let e2 =
      set_field-found h.fresh (λ y. record y { field_value = some t.fresh }) h1
        (named_field h.fresh none) e1 in
    (
      with_value (c ∷ v) h.fresh t,
      with_field-filled name (some (c ∷ v)) prev h x has below ∙ rw e2 refl,
      with_value-IsLinked name (c ∷ v) prev h x below free,
    )

pub Value-le :
    {f : ℕ → Option Cell} {s : Option (List ℕ)} {v : Option ℕ} {p q : ℕ} → Value f s v p q → p ≤ q
Value-le no_value = omega arith
Value-le (a_value e) = omega arith

-- The text of a value stays where it is, if nothing is written there.
pub Value-agree :
    {f g : ℕ → Option Cell} {s : Option (List ℕ)} {v : Option ℕ} {p q : ℕ}
    → Value f s v p q
    → ((a : ℕ) → p ≤ a → a < q → g a ≡ f a)
    → Value g s v p q
Value-agree no_value same = no_value
Value-agree {p} (a_value e) same = a_value (same p (omega arith) (omega arith) ∙ e)
