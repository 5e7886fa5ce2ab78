-- ===== src/Prelude/Text.antt =====
-- Strings of C as lists of characters, without the 0 at the end.
use Prim.Native.Nat.{ℕ, zero, suc, ◌<◌}
use mathlib.Core.Path.{◌≡◌, refl, ap, ◌∙◌, sym, subst}
use mathlib.Core.Logic.{inl, inr}
use mathlib.Core.Bool.{Bool, true, false}
use mathlib.Core.List.{List, [], ◌∷◌, ◌++◌}
use mathlib.Core.List.{append_assoc, append-nil}
use native.Mathlib.Omega.{arith}
use postfix_edm.Prelude.Tests.{Bool-cases, ◌==◌, if◌then◌else◌}
use postfix_edm.Prelude.Memory.{length-take_of_le}
use postfix_edm.Prelude.Lists.{length, take}

-- The character at a place; behind the end it is the 0.
abbrev pub char_at : List ℕ → ℕ → ℕ
char_at [] i = 0
char_at (c ∷ s) zero = c
char_at (c ∷ s) (suc i) = char_at s i

-- Whether strchr finds the character.
abbrev pub has : ℕ → List ℕ → Bool
has c [] = false
has c (d ∷ s) = if d == c then true else has c s

pub has-append : (c : ℕ) (l r : List ℕ) → has c (l ++ r) ≡ (if has c l then true else has c r)
has-append c [] r = refl
has-append c (d ∷ l) r = ground (arith, has-append c l r)

-- The string that begins a block of bytes.
abbrev pub c_string : List ℕ → List ℕ
c_string [] = []
c_string (c ∷ s) = if c == 0 then [] else c ∷ c_string s

pub c_string-plain : (s : List ℕ) → has 0 s ≡ false → c_string s ≡ s
c_string-plain [] h = refl
c_string-plain (c ∷ s) h = elim (Bool-cases (c == 0)) [
  | inl e ↦ let bad : true ≡ false = rw e at h in cc
  | inr e ↦ let h' : has 0 s ≡ false = rw e at h in rw (e, c_string-plain s h')
]

pub c_string-ended : (s r : List ℕ) → has 0 s ≡ false → c_string (s ++ (0 ∷ r)) ≡ s
c_string-ended [] r h = refl
c_string-ended (c ∷ s) r h = elim (Bool-cases (c == 0)) [
  | inl e ↦ let bad : true ≡ false = rw e at h in cc
  | inr e ↦ let h' : has 0 s ≡ false = rw e at h in rw (e, c_string-ended s r h')
]

module _ (p : ℕ → Bool) where
  -- A loop that ends the string at its last place while that holds such a character, where `i + 1` is
  -- the first argument.
  unfoldable pub rtrim_loop : ℕ → List ℕ → List ℕ
  rtrim_loop zero s = s
  rtrim_loop (suc i) s = let rest = rtrim_loop i (take i s) in if p (char_at s i) then rest else s

  -- A loop that goes past the first such characters.
  unfoldable pub skip : List ℕ → List ℕ
  skip [] = []
  skip (c ∷ s) = let rest = skip s in if p c then rest else c ∷ s

  abbrev pub AreAll : List ℕ → Type 0
  AreAll [] = Unit
  AreAll (c ∷ s) = (p c ≡ true) × AreAll s

  -- The string does not begin with such a character, and does not end with one.
  abbrev pub BeginsClean : List ℕ → Type 0
  BeginsClean [] = Unit
  BeginsClean (c ∷ s) = p c ≡ false

  abbrev pub EndsClean : List ℕ → Type 0
  EndsClean [] = Unit
  EndsClean (c ∷ []) = p c ≡ false
  EndsClean (c ∷ d ∷ s) = EndsClean (d ∷ s)

  pub AreAll-append : (l r : List ℕ) → AreAll l → AreAll r → AreAll (l ++ r)
  AreAll-append [] r h k = k
  AreAll-append (c ∷ l) r h k = (h.0, AreAll-append l r h.1 k)

  last_place : (i : ℕ) (s : List ℕ) → length s ≡ suc i → s ≡ take i s ++ (char_at s i ∷ [])
  last_place i [] h = absurd (omega arith)
  last_place zero (c ∷ []) h = refl
  last_place zero (c ∷ d ∷ s) h = absurd (omega arith)
  last_place (suc i) (c ∷ s) h = ap (λ l. c ∷ l) (last_place i s (omega arith))

  clean-last : (i : ℕ) (s : List ℕ) → length s ≡ suc i → p (char_at s i) ≡ false → EndsClean s
  clean-last i [] h e = tt
  clean-last zero (c ∷ []) h e = e
  clean-last zero (c ∷ d ∷ s) h e = absurd (omega arith)
  clean-last (suc i) (c ∷ []) h e = absurd (omega arith)
  clean-last (suc i) (c ∷ d ∷ s) h e = clean-last i (d ∷ s) (omega arith) e

  pub rtrim_loop-splits :
      (i : ℕ) (s : List ℕ)
      → length s ≡ i
      → (r : List ℕ) × (s ≡ rtrim_loop i s ++ r) × AreAll r × EndsClean (rtrim_loop i s)
  unfolding rtrim_loop
  rtrim_loop-splits zero [] h = ([], refl, tt, tt)
  rtrim_loop-splits zero (c ∷ s) h = absurd (omega arith)
  rtrim_loop-splits (suc i) s h = elim (Bool-cases (p (char_at s i))) [
    | inl e ↦
        let (r, split, spaces, clean) =
          rtrim_loop-splits i (take i s) (length-take_of_le i s (omega arith)) in
        rw e (
          r ++ (char_at s i ∷ []),
          last_place i s h
              ∙ ap (λ l. l ++ (char_at s i ∷ [])) split
              ∙ append_assoc _ r (char_at s i ∷ []),
          AreAll-append r (char_at s i ∷ []) spaces (e, tt),
          clean,
        )
    | inr e ↦ rw e ([], sym (append-nil s), tt, clean-last i s h e)
  ]

  pub skip-splits :
      (s : List ℕ)
      → EndsClean s
      → (l : List ℕ) × (s ≡ l ++ skip s) × AreAll l × BeginsClean (skip s) × EndsClean (skip s)
  unfolding skip
  skip-splits [] q = ([], refl, tt, tt, tt)
  skip-splits (c ∷ s) q = elim (Bool-cases (p c)) [
    | inl e ↦
        let (l, split, spaces, begins, ends) = skip-splits s (later s q) in
        rw e (c ∷ l, ap (λ t. c ∷ t) split, (e, spaces), begins, ends)
    | inr e ↦ rw e ([], refl, tt, e, q)
  ]
    where
      later : (t : List ℕ) → EndsClean (c ∷ t) → EndsClean t
      later [] h = tt
      later (d ∷ t) h = h

  EndsClean-tail : (c : ℕ) (s : List ℕ) → EndsClean (c ∷ s) → EndsClean s
  EndsClean-tail c [] h = tt
  EndsClean-tail c (d ∷ s) h = h

  not_clean : (c : ℕ) (s r : List ℕ) → AreAll (c ∷ (s ++ r)) → EndsClean (c ∷ s) → ⊥
  not_clean c [] r h e = let bad : true ≡ false = sym h.0 ∙ e in cc
  not_clean c (d ∷ s) r h e = not_clean d s r h.1 e

  -- The end that consists of such characters is cut off in one way.
  clean_front :
      (s r t r' : List ℕ)
      → s ++ r ≡ t ++ r'
      → EndsClean s
      → EndsClean t
      → AreAll r
      → AreAll r'
      → s ≡ t
  clean_front [] r [] r' e hs ht hr hr' = refl
  clean_front [] r (d ∷ t) r' e hs ht hr hr' = absurd (not_clean d t r' (subst AreAll e hr) ht)
  clean_front (c ∷ s) r [] r' e hs ht hr hr' =
      absurd (not_clean c s r (subst AreAll (sym e) hr') hs)
  clean_front (c ∷ s) r (d ∷ t) r' e hs ht hr hr' =
      let first : c ≡ d = cc in
      let rest : s ++ r ≡ t ++ r' = cc in
      λ i.
        first i ∷ clean_front s r t r' rest (EndsClean-tail c s hs) (EndsClean-tail d t ht) hr hr' i

  pub rtrim_loop-append :
      (s r : List ℕ) → EndsClean s → AreAll r → rtrim_loop (length (s ++ r)) (s ++ r) ≡ s
  rtrim_loop-append s r h k =
      let (r', split, all, clean) = rtrim_loop-splits (length (s ++ r)) (s ++ r) refl in
      sym (clean_front s r (rtrim_loop (length (s ++ r)) (s ++ r)) r' split h clean k all)

  pub skip-append : (l s : List ℕ) → AreAll l → BeginsClean s → skip (l ++ s) ≡ s
  unfolding skip
  skip-append [] [] h k = refl
  skip-append [] (c ∷ s) h k = rw k
  skip-append (c ∷ l) s h k = rw h.0 (skip-append l s h.1 k)

  pub EndsClean-append : (l s : List ℕ) → 0 < length s → EndsClean s → EndsClean (l ++ s)
  EndsClean-append [] s n h = h
  EndsClean-append (c ∷ []) [] n h = absurd (omega arith)
  EndsClean-append (c ∷ []) (d ∷ s) n h = h
  EndsClean-append (c ∷ d ∷ l) s n h = EndsClean-append (d ∷ l) s n h
