-- ===== src/Title/Layout.antt =====
-- The arguments and the environment as the system lays them out: one string behind the other.
use postfix_edm.Prelude.{
  ℕ, suc, ◌+◌, ◌≡◌, refl, sym, ap, ◌∙◌, List, [], ◌∷◌, ◌++◌, map, some, false, length, append_assoc,
  arith, length-append,
}
use postfix_edm.Prelude.Memory.{drop_prefix}
use postfix_edm.Prelude.Text.{has, c_string-ended}
use postfix_edm.Title.{Process, string_at, last_of}

abbrev pub laid_out : List (List ℕ) → List ℕ
laid_out [] = []
laid_out (s ∷ ss) = s ++ (0 ∷ laid_out ss)

abbrev pub places : ℕ → List (List ℕ) → List ℕ
places p [] = []
places p (s ∷ ss) = p ∷ places (p + suc (length s)) ss

abbrev pub AreStrings : List (List ℕ) → Type 0
AreStrings [] = Unit
AreStrings (s ∷ ss) = (has 0 s ≡ false) × AreStrings ss

-- A process with these arguments and environment, and what the memory holds behind them.
abbrev pub started : List (List ℕ) → List (List ℕ) → List ℕ → Process
started args envs rest = record {
  memory = laid_out (args ++ envs) ++ rest;
  argv = places 0 args;
  envp = places (length (laid_out args)) envs;
  environ = [];
  last_argv = 0;
}

pub string_at-place :
    (l s r : List ℕ) (p : ℕ)
    → p ≡ length l
    → has 0 s ≡ false
    → string_at (l ++ (s ++ (0 ∷ r))) p ≡ s
string_at-place l s r p e h = rw (drop_prefix p l (s ++ (0 ∷ r)) e, c_string-ended s r h)

pub laid_out-append : (ss ts : List (List ℕ)) → laid_out (ss ++ ts) ≡ laid_out ss ++ laid_out ts
laid_out-append [] ts = refl
laid_out-append (s ∷ ss) ts =
    rw (laid_out-append ss ts, append_assoc s (0 ∷ laid_out ss) (laid_out ts))

after_one :
    (l s r : List ℕ) (x : List ℕ) → l ++ ((s ++ (0 ∷ r)) ++ x) ≡ (l ++ (s ++ (0 ∷ []))) ++ (r ++ x)
after_one l s r x = rw (
  append_assoc l (s ++ (0 ∷ [])) (r ++ x),
  append_assoc s (0 ∷ []) (r ++ x),
  append_assoc s (0 ∷ r) x,
)

length-after_one :
    (l s : List ℕ) (p : ℕ) → p ≡ length l → p + suc (length s) ≡ length (l ++ (s ++ (0 ∷ [])))
length-after_one l s p e = omega (arith, length-append l (s ++ (0 ∷ [])), length-append s (0 ∷ []))

-- Every string is found at its place.
pub map-places :
    (ss : List (List ℕ)) (l r : List ℕ) (p : ℕ)
    → p ≡ length l
    → AreStrings ss
    → map (string_at (l ++ (laid_out ss ++ r))) (places p ss) ≡ ss
map-places [] l r p e h = refl
map-places (s ∷ ss) l r p e h =
    let first : string_at (l ++ (laid_out (s ∷ ss) ++ r)) p ≡ s =
      ap (λ x. string_at (l ++ x) p) (append_assoc s (0 ∷ laid_out ss) r)
      ∙ string_at-place l s (laid_out ss ++ r) p e h.0 in
    let others =
      map-places ss (l ++ (s ++ (0 ∷ []))) r (p + suc (length s)) (length-after_one l s p e) h.1 in
    let shift = after_one l s (laid_out ss) r in
    rw first (
      ap (λ t. s ∷ t) (ap (λ x. map (string_at x) (places (p + suc (length s)) ss)) shift ∙ others))

-- The last string ends where all do.
pub last_of-places :
    (s : List ℕ) (ss : List (List ℕ)) (l r : List ℕ) (p : ℕ)
    → p ≡ length l
    → AreStrings (s ∷ ss)
    → (q : ℕ) × (last_of (places p (s ∷ ss)) ≡ some q)
      × (suc (q + length (string_at (l ++ (laid_out (s ∷ ss) ++ r)) q))
          ≡ p + length (laid_out (s ∷ ss)))
last_of-places s [] l r p e h =
    let found =
      ap (λ x. string_at (l ++ x) p) (append_assoc s (0 ∷ []) r) ∙ string_at-place l s r p e h.0 in
    let n : length (string_at (l ++ ((s ++ (0 ∷ [])) ++ r)) p) ≡ length s = ap length found in
    (p, refl, omega (arith, n, length-append s (0 ∷ [])))
last_of-places s (t ∷ ss) l r p e h =
    let (q, last, ends) =
      last_of-places t ss (l ++ (s ++ (0 ∷ []))) r (p + suc (length s)) (length-after_one l s p e)
        h.1 in
    let shift : length (string_at (l ++ (laid_out (s ∷ t ∷ ss) ++ r)) q)
        ≡ length (string_at ((l ++ (s ++ (0 ∷ []))) ++ (laid_out (t ∷ ss) ++ r)) q) =
      ap (λ x. length (string_at x q)) (after_one l s (laid_out (t ∷ ss)) r) in
    (q, last, omega (arith, ends, shift, length-append s (0 ∷ laid_out (t ∷ ss))))

pub AreStrings-left : (ss ts : List (List ℕ)) → AreStrings (ss ++ ts) → AreStrings ss
AreStrings-left [] ts h = tt
AreStrings-left (s ∷ ss) ts h = (h.0, AreStrings-left ss ts h.1)

pub AreStrings-right : (ss ts : List (List ℕ)) → AreStrings (ss ++ ts) → AreStrings ts
AreStrings-right [] ts h = h
AreStrings-right (s ∷ ss) ts h = AreStrings-right ss ts h.1

pub laid_out-ends :
    (s : List ℕ) (ss : List (List ℕ)) → (body : List ℕ) × (laid_out (s ∷ ss) ≡ body ++ (0 ∷ []))
laid_out-ends s [] = (s, refl)
laid_out-ends s (t ∷ ss) =
    let (body, e) = laid_out-ends t ss in
    (s ++ (0 ∷ body), ap (λ x. s ++ (0 ∷ x)) e ∙ sym (append_assoc s (0 ∷ body) (0 ∷ [])))

pub memory-split :
    (args envs : List (List ℕ)) (rest : List ℕ)
    → laid_out (args ++ envs) ++ rest ≡ laid_out args ++ (laid_out envs ++ rest)
memory-split args envs rest =
    ap (λ x. x ++ rest) (laid_out-append args envs)
    ∙ append_assoc (laid_out args) (laid_out envs) rest
