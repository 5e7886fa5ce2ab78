-- ===== src/Config/Lines.antt =====
-- The lines of a configuration file as they are written, and what one of them does to the map.
use postfix_edm.Prelude.{
  ℕ, zero, suc, ◌-◌, ◌<◌, ◌≡◌, refl, sym, ap, ◌∙◌, List, [], ◌∷◌, ◌++◌, Option, none, some, true,
  false, ◌==◌, if◌then◌else◌, arith, length, length-append, append-nil, inl, inr, Bool-cases,
}
use postfix_edm.Prelude.Memory.{◌>>=◌, take_prefix}
use postfix_edm.Prelude.Text.{char_at, has, has-append, AreAll, c_string-plain}
use postfix_edm.Config.Trim.{IsTrimmed, trim_space-padded}
use postfix_edm.Config.{
  is_blank, ConfigMap, insert, divide, parse_line, insert_both, fgets, remove_newline,
  remove_comment, load_line,
}

-- `key = value` with blanks in four places.
pub record Entry : Type 0 where
  pub lead : List ℕ
  pub key : List ℕ
  pub gap : List ℕ
  pub pre : List ℕ
  pub value : List ℕ
  pub trail : List ℕ

-- An entry or nothing, with a comment behind it that begins with # or is empty.
pub data Line : Type 0 where
  entry : Entry → List ℕ → Line
  remark : List ℕ → Line

abbrev pub body : Line → List ℕ
body (entry e note) = (e.lead ++ (e.key ++ e.gap)) ++ (b'=' ∷ (e.pre ++ (e.value ++ e.trail)))
body (remark note) = []

abbrev pub note_of : Line → List ℕ
note_of (entry e note) = note
note_of (remark note) = note

abbrev pub text : Line → List ℕ
text l = body l ++ note_of l

abbrev pub bytes : Line → List ℕ
bytes l = text l ++ (b'\n' ∷ [])

-- No character of the text ends a line or a string.
pub record IsPlain (s : List ℕ) : Type 0 where
  pub no_newline : has b'\n' s ≡ false
  pub no_zero : has 0 s ≡ false

abbrev pub IsNote : List ℕ → Type 0
IsNote [] = Unit
IsNote (c ∷ s) = c ≡ b'#'

pub record IsEntry (e : Entry) : Type 0 where
  pub lead : AreAll is_blank e.lead
  pub gap : AreAll is_blank e.gap
  pub pre : AreAll is_blank e.pre
  pub trail : AreAll is_blank e.trail
  pub key : IsTrimmed e.key
  pub value : IsTrimmed e.value
  pub key_equals : has b'=' e.key ≡ false
  pub key_note : has b'#' e.key ≡ false
  pub value_note : has b'#' e.value ≡ false

abbrev IsBody : Line → Type 0
IsBody (entry e note) = IsEntry e
IsBody (remark note) = Unit

-- The line is well formed and fits the buffer of `_LoadFile`.
pub record IsLine (l : Line) : Type 0 where
  pub formed : IsBody l
  pub note : IsNote (note_of l)
  pub plain : IsPlain (text l)
  pub fits : length (text l) < 255

free-append : (c : ℕ) (l r : List ℕ) → has c l ≡ false → has c r ≡ false → has c (l ++ r) ≡ false
free-append c l r h k = has-append c l r ∙ rw h k

free-blank : (c : ℕ) (l : List ℕ) → is_blank c ≡ false → AreAll is_blank l → has c l ≡ false
free-blank c [] h a = refl
free-blank c (d ∷ l) h a = elim (Bool-cases (d == c)) [
  | inl e ↦
      let same : d ≡ c = ground arith in
      let bad : true ≡ false = sym a.0 ∙ ap is_blank same ∙ h in cc
  | inr e ↦ rw e (free-blank c l h a.1)
]

-- fgets takes a line that fits, with its \n.
fgets-line :
    (n : ℕ) (s rest : List ℕ)
    → has b'\n' s ≡ false
    → length s < n
    → fgets n ((s ++ (b'\n' ∷ [])) ++ rest) ≡ (s ++ (b'\n' ∷ []), rest)
unfolding fgets
fgets-line zero s rest h k = absurd (omega arith)
fgets-line (suc n) [] rest h k = refl
fgets-line (suc n) (c ∷ s) rest h k = elim (Bool-cases (c == b'\n')) [
  | inl e ↦ let bad : true ≡ false = rw e at h in cc
  | inr e ↦ let h' : has b'\n' s ≡ false = rw e at h in rw (e, fgets-line n s rest h' (omega arith))
]

remove_newline-line : (s : List ℕ) → remove_newline (s ++ (b'\n' ∷ [])) ≡ some s
unfolding remove_newline
remove_newline-line s =
    let n : length (s ++ (b'\n' ∷ [])) ≡ suc (length s) =
      omega (arith, length-append s (b'\n' ∷ [])) in
    let m : length s ≡ suc (length s) - 1 = omega arith in
    rw (n, ← m, last s, take_prefix (length s) s (b'\n' ∷ []) refl) (ground arith)
  where
    last : (t : List ℕ) → char_at (t ++ (b'\n' ∷ [])) (length t) ≡ b'\n'
    last [] = refl
    last (c ∷ t) = last t

divide-free : (c : ℕ) (s : List ℕ) → has c s ≡ false → divide c s ≡ none
unfolding divide
divide-free c [] h = refl
divide-free c (d ∷ s) h = elim (Bool-cases (d == c)) [
  | inl e ↦ let bad : true ≡ false = rw e at h in cc
  | inr e ↦ let h' : has c s ≡ false = rw e at h in rw (divide-free c s h', e)
]

divide-first : (c : ℕ) (l r : List ℕ) → has c l ≡ false → divide c (l ++ (c ∷ r)) ≡ some (l, r)
unfolding divide
divide-first c [] r h =
    elim (divide c r)
      as (λ o.
        elim o as (λ _. Option (List ℕ × List ℕ)) [
          | none ↦ if c == c then some ([], r) else none
          | some (x, y) ↦ if c == c then some ([], r) else some (c ∷ x, y)
        ]
        ≡ some ([], r)) [ none ↦ ground arith | some p ↦ ground arith ]
divide-first c (d ∷ l) r h = elim (Bool-cases (d == c)) [
  | inl e ↦ let bad : true ≡ false = rw e at h in cc
  | inr e ↦ let h' : has c l ≡ false = rw e at h in rw (divide-first c l r h', e)
]

remove_comment-note :
    (b note : List ℕ) → has b'#' b ≡ false → IsNote note → remove_comment (b ++ note) ≡ b
unfolding remove_comment
remove_comment-note b [] h n =
    ap remove_comment (append-nil b) ∙ rw (divide-free b'#' b h, remove_comment)
remove_comment-note b (c ∷ s) h n =
    ap (λ (d : ℕ). remove_comment (b ++ (d ∷ s))) n ∙ rw (divide-first b'#' b s h, remove_comment)

body-free : (l : Line) → IsBody l → has b'#' (body l) ≡ false
unfolding is_blank
body-free (remark note) f = refl
body-free (entry e note) f =
    free-append b'#' (e.lead ++ (e.key ++ e.gap)) (b'=' ∷ (e.pre ++ (e.value ++ e.trail)))
      (free-append b'#' e.lead (e.key ++ e.gap) (free-blank b'#' e.lead refl f.lead)
        (free-append b'#' e.key e.gap f.key_note (free-blank b'#' e.gap refl f.gap)))
      (free-append b'#' e.pre (e.value ++ e.trail) (free-blank b'#' e.pre refl f.pre)
        (free-append b'#' e.value e.trail f.value_note (free-blank b'#' e.trail refl f.trail)))

-- What a line says goes into the map.
abbrev pub add : Line → ConfigMap → ConfigMap
add (entry e note) m = insert e.key e.value m
add (remark note) m = m

parse_line-entry :
    (e : Entry) (m : ConfigMap) (note : List ℕ)
    → IsEntry e
    → parse_line (body (entry e note)) m ≡ insert e.key e.value m
unfolding parse_line is_blank insert_both
parse_line-entry e m note f = rw (
  divide-first b'=' (e.lead ++ (e.key ++ e.gap)) (e.pre ++ (e.value ++ e.trail)) left_free,
  parse_line,
  trim_space-padded e.lead e.key e.gap f.lead f.key f.gap,
  trim_space-padded e.pre e.value e.trail f.pre f.value f.trail,
)
  where
    left_free : has b'=' (e.lead ++ (e.key ++ e.gap)) ≡ false
    left_free =
        free-append b'=' e.lead (e.key ++ e.gap) (free-blank b'=' e.lead refl f.lead)
          (free-append b'=' e.key e.gap f.key_equals (free-blank b'=' e.gap refl f.gap))

says :
    (l : Line) (m : ConfigMap)
    → IsBody l
    → (if length (body l) == 0 then m else parse_line (body l) m) ≡ add l m
says (remark note) m f = refl
says (entry e note) m f =
    let n : 0 < length (body (entry e note)) = omega (
      arith,
      length-append (e.lead ++ (e.key ++ e.gap)) (b'=' ∷ (e.pre ++ (e.value ++ e.trail))),
    ) in
    let some_body : (length (body (entry e note)) == 0) ≡ false = ground arith in
    rw some_body (parse_line-entry e m note f)

pub load_line-line : (l : Line) (m : ConfigMap) → IsLine l → load_line (bytes l) m ≡ some (add l m)
unfolding load_line
load_line-line l m v =
    rw
      (
        c_string-plain (bytes l) (free-append 0 (text l) (b'\n' ∷ []) v.plain.no_zero refl),
        remove_newline-line (text l),
        ◌>>=◌,
        remove_comment-note (body l) (note_of l) (body-free l v.formed) v.note,
      )
      (ap some (says l m v.formed))

pub fgets-bytes :
    (l : Line) (rest : List ℕ) → IsLine l → fgets 255 (bytes l ++ rest) ≡ (bytes l, rest)
fgets-bytes l rest v = fgets-line 255 (text l) rest v.plain.no_newline v.fits
