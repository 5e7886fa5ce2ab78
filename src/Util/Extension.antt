-- ===== src/Util/Extension.antt =====
-- What `getExtension` finds.
use postfix_edm.Prelude.{
  ℕ, ◌≡◌, ◌↔◌, refl, sym, ap, ◌∙◌, List, [], ◌∷◌, ◌++◌, none, some, true, false, ◌==◌,
  if◌then◌else◌, arith, inl, inr, Bool-cases,
}
use postfix_edm.Prelude.Text.{has, has-append}
use postfix_edm.Util.{last_from, after_period, get_extension}

-- Either the character is not there, or what begins with the last one is found.
data Searched (c : ℕ) (s : List ℕ) : Type 0 where
  missing : has c s ≡ false → last_from c s ≡ none → Searched c s
  found :
      (l r : List ℕ)
      → s ≡ l ++ (c ∷ r)
      → last_from c s ≡ some (c ∷ r)
      → has c r ≡ false
      → Searched c s

searched : (c : ℕ) (s : List ℕ) → Searched c s
unfolding last_from
searched c [] = missing refl refl
searched c (d ∷ s) = elim (searched c s) [
  | missing h e ↦ elim (Bool-cases (d == c)) [
    | inl x ↦
        let same : d ≡ c = ground arith in
        found [] s (ap (λ y. y ∷ s) same) (rw (e, x) (ap (λ y. some (y ∷ s)) same)) h
    | inr x ↦ missing (rw x h) (rw (e, x))
  ]
  | found l r split e h ↦ found (d ∷ l) r (ap (λ t. d ∷ t) split) (rw e) h
]

-- The last such character divides a string in one way.
divides :
    (c : ℕ) (l r l' r' : List ℕ)
    → l ++ (c ∷ r) ≡ l' ++ (c ∷ r')
    → has c r ≡ false
    → has c r' ≡ false
    → r ≡ r'
divides c [] r [] r' e h h' = cc
divides c [] r (d ∷ l') r' e h h' =
    let rest : r ≡ l' ++ (c ∷ r') = cc in
    let bad : (if has c l' then true else (if c == c then true else has c r')) ≡ false =
      sym (has-append c l' (c ∷ r')) ∙ ap (has c) (sym rest) ∙ h in
    ground arith
divides c (d ∷ l) r [] r' e h h' =
    let rest : r' ≡ l ++ (c ∷ r) = cc in
    let bad : (if has c l then true else (if c == c then true else has c r)) ≡ false =
      sym (has-append c l (c ∷ r)) ∙ ap (has c) (sym rest) ∙ h' in
    ground arith
divides c (d ∷ l) r (d' ∷ l') r' e h h' =
    let rest : l ++ (c ∷ r) ≡ l' ++ (c ∷ r') = cc in divides c l r l' r' rest h h'

-- The path is something, a period and the extension, and neither a period nor a slash is in that.
pub record HasExtension (path ext : List ℕ) : Type 0 where
  pub before : List ℕ
  pub split : path ≡ before ++ (b'.' ∷ ext)
  pub no_period : has b'.' ext ≡ false
  pub no_slash : has b'/' ext ≡ false

finds : (path ext : List ℕ) → HasExtension path ext → get_extension path ≡ some ext
unfolding get_extension after_period
finds path ext x = elim (searched b'.' path) [
  | missing h e ↦
      let bad : (if has b'.' x.before then true else true) ≡ false =
        sym (has-append b'.' x.before (b'.' ∷ ext)) ∙ ap (has b'.') (sym x.split) ∙ h in
      ground arith
  | found l r split e h ↦
      let same : r ≡ ext = divides b'.' l r x.before ext (sym split ∙ x.split) h x.no_period in
      rw (e, get_extension, same, x.no_slash)
]

is_found : (path ext : List ℕ) → get_extension path ≡ some ext → HasExtension path ext
unfolding get_extension after_period
is_found path ext g = elim (searched b'.' path) [
  | missing h e ↦ let bad : none ≡ some ext = rw (e, get_extension) at g in cc
  | found l r split e h ↦ elim (Bool-cases (has b'/' r)) [
    | inl slash ↦ let bad : none ≡ some ext = rw (e, get_extension, slash) at g in cc
    | inr plain ↦
        let same : r ≡ ext = only r (rw (e, get_extension, plain) at g) in
        record {
          before = l;
          split = split ∙ ap (λ t. l ++ (b'.' ∷ t)) same;
          no_period = ap (has b'.') (sym same) ∙ h;
          no_slash = ap (has b'/') (sym same) ∙ plain;
        }
  ]
]
  where
    only : (r : List ℕ) → some r ≡ some ext → r ≡ ext
    only r e = cc

-- An extension is found exactly where the path ends with a period and text that holds neither a period
-- nor a slash, and then it is that text.
pub get_extension_iff :
    (path ext : List ℕ) → (get_extension path ≡ some ext) ↔ HasExtension path ext
get_extension_iff path ext = (is_found path ext, finds path ext)
