-- ===== src/Config/Load.antt =====
-- A whole file.
use postfix_edm.Prelude.{
  ℕ, zero, suc, ◌<◌, ◌≡◌, refl, sym, ap, ◌∙◌, List, [], ◌∷◌, ◌++◌, Option, none, some, Bool, true,
  false, ◌==◌, if◌then◌else◌, arith, length, length-append, inl, inr, Bool-cases, Option-cases,
}
use postfix_edm.Prelude.Memory.{◌>>=◌}
use postfix_edm.Config.Lines.{
  Line, entry, remark, bytes, text, add, IsLine, load_line-line, fgets-bytes,
}
use postfix_edm.Config.{
  ConfigMap, ConfigFileReader, find, insert, same_text, fgets, load_line, load_round, load_loop,
  config_file_reader, get_config_name,
}

abbrev pub file_of : List Line → List ℕ
file_of [] = []
file_of (l ∷ ls) = bytes l ++ file_of ls

abbrev pub AreLines : List Line → Type 0
AreLines [] = Unit
AreLines (l ∷ ls) = IsLine l × AreLines ls

-- The value of the first line that has the key.
abbrev pub first_value : List ℕ → List Line → Option (List ℕ)
first_value name [] = none
first_value name (entry e note ∷ ls) =
    if same_text e.key name then some e.value else first_value name ls
first_value name (remark note ∷ ls) = first_value name ls

abbrev or_else : Option (List ℕ) → Option (List ℕ) → Option (List ℕ)
or_else none o = o
or_else (some v) o = some v

same_text_refl : (s : List ℕ) → same_text s s ≡ true
same_text_refl [] = refl
same_text_refl (c ∷ s) = let e : (c == c) ≡ true = ground arith in rw (e, same_text_refl s)

same_text-eq : (s t : List ℕ) → same_text s t ≡ true → s ≡ t
same_text-eq [] [] h = refl
same_text-eq [] (d ∷ t) h = cc
same_text-eq (c ∷ s) [] h = cc
same_text-eq (c ∷ s) (d ∷ t) h = elim (Bool-cases (c == d)) [
  | inl e ↦
      let first : c ≡ d = ground arith in
      let rest : same_text s t ≡ true = rw e at h in λ i. first i ∷ same_text-eq s t rest i
  | inr e ↦ let bad : false ≡ true = rw e at h in cc
]

find-append :
    (name key value : List ℕ) (m : ConfigMap)
    → find name (m ++ ((key, value) ∷ []))
      ≡ or_else (find name m) (if same_text key name then some value else none)
unfolding find
find-append name key value [] = refl
find-append name key value ((k, v) ∷ m) = elim (Bool-cases (same_text k name)) [
  | inl e ↦ rw e
  | inr e ↦ rw e (find-append name key value m)
]

find-insert :
    (name key value : List ℕ) (m : ConfigMap)
    → find name (insert key value m)
      ≡ or_else (find name m) (if same_text key name then some value else none)
unfolding insert
find-insert name key value m = elim (Option-cases (find key m)) [
  | inl e ↦ rw (e, insert) (find-append name key value m)
  | inr (v, e) ↦
      rw (e, insert)
        (elim (Bool-cases (same_text key name)) [
          | inl x ↦
              let there : find name m ≡ some v =
                ap (λ k. find k m) (sym (same_text-eq key name x)) ∙ e in
              rw (x, there)
          | inr x ↦ rw x (sym (or_none (find name m)))
        ])
]
  where
    or_none : (o : Option (List ℕ)) → or_else o none ≡ o
    or_none none = refl
    or_none (some w) = refl

-- What the map says once the lines are added.
found_in : List ℕ → ConfigMap → List Line → Option (List ℕ)
found_in name m ls = or_else (find name m) (first_value name ls)

found_in-add :
    (name : List ℕ) (m : ConfigMap) (l : Line) (ls : List Line)
    → found_in name (add l m) ls ≡ found_in name m (l ∷ ls)
unfolding found_in
found_in-add name m (remark note) ls = refl
found_in-add name m (entry e note) ls =
    ap (λ o. or_else o (first_value name ls)) (find-insert name e.key e.value m)
    ∙ shift (find name m) (same_text e.key name)
  where
    shift :
        (o : Option (List ℕ)) (b : Bool)
        → or_else (or_else o (if b then some e.value else none)) (first_value name ls)
          ≡ or_else o (if b then some e.value else first_value name ls)
    shift none true = refl
    shift none false = refl
    shift (some v) b = refl

load_round-bytes :
    (more : ConfigMap → Option ConfigMap) (l : Line) (m : ConfigMap)
    → load_round more (bytes l) m ≡ (load_line (bytes l) m >>= more)
unfolding load_round
load_round-bytes more l m = some_bytes (text l)
  where
    some_bytes :
        (s : List ℕ)
        → load_round more (s ++ (b'\n' ∷ [])) m ≡ (load_line (s ++ (b'\n' ∷ [])) m >>= more)
    some_bytes [] = refl
    some_bytes (c ∷ s) = refl

load_loop-lines :
    (fuel : ℕ) (ls : List Line) (m : ConfigMap)
    → AreLines ls
    → length (file_of ls) < fuel
    → (m' : ConfigMap) × (load_loop fuel (file_of ls) m ≡ some m')
      × ((name : List ℕ) → find name m' ≡ found_in name m ls)
unfolding load_loop
load_loop-lines zero ls m v h = absurd (omega arith)
load_loop-lines (suc fuel) [] m v h =
    unfold load_round fgets found_in in (m, refl, λ name. sym (or_none (find name m)))
  where
    or_none : (o : Option (List ℕ)) → or_else o none ≡ o
    or_none none = refl
    or_none (some w) = refl
load_loop-lines (suc fuel) (l ∷ ls) m v h =
    let shorter : length (file_of ls) < fuel =
      omega (arith, length-append (bytes l) (file_of ls), length-append (text l) (b'\n' ∷ [])) in
    let (m', ran, same) = load_loop-lines fuel ls (add l m) v.1 shorter in
    (
      m',
      rw (fgets-bytes l (file_of ls) v.0) (
          load_round-bytes (load_loop fuel (file_of ls)) l m
          ∙ rw (load_line-line l m v.0, ◌>>=◌) ran),
      λ name. same name ∙ found_in-add name m l ls,
    )

-- A file of well-formed lines, each below 255 characters, is loaded without a fault, whatever
-- `m_load_ok` held; and then a name has the value of the first line with that key, without the blanks
-- around it and the comment behind it, and no value if there is no such line.
pub config_file_reader-lines :
    (unset : Bool) (ls : List Line) (name : List ℕ)
    → AreLines ls
    → (r : ConfigFileReader) × (config_file_reader unset (some (file_of ls)) ≡ some r)
      × (get_config_name r name ≡ first_value name ls)
unfolding config_file_reader get_config_name
config_file_reader-lines unset ls name v =
    let (m, ran, same) = load_loop-lines (suc (length (file_of ls))) ls [] v (omega arith) in
    (
      record { load_ok = true; config_map = m },
      rw (ran, ◌>>=◌),
      same name ∙ unfold found_in find in refl,
    )
