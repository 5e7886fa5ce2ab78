-- ===== src/Prelude/Memory.antt =====
-- A block of memory as the list of its bytes, with the copies of C. An access outside the block is
-- undefined in C; here it is `none`.
use mathlib.Core.Path.{◌≡◌, refl, ap, ◌∙◌, sym}
use Prim.Native.Nat.{ℕ, zero, suc, ◌+◌, ◌≤◌, ◌<◌}
use mathlib.Core.List.{List, [], ◌∷◌, ◌++◌}
use mathlib.Core.Option.{Option, none, some}
use native.Mathlib.Omega.{arith}
use postfix_edm.Prelude.Tests.{leb, if◌then◌else◌}
use postfix_edm.Prelude.Lists.{length, take, drop, length-take, length-append}

infixl 5 ◌>>=◌
abbrev pub ◌>>=◌ {ℓ κ} : {A : Type ℓ} {B : Type κ} → Option A → (A → Option B) → Option B
none >>= f = none
some a >>= f = f a

pub bind_assoc {ℓ κ μ} :
    {A : Type ℓ} {B : Type κ} {C : Type μ} (o : Option A) (f : A → Option B) (g : B → Option C)
    → (o >>= (λ a. f a >>= g)) ≡ ((o >>= f) >>= g)
bind_assoc none f g = refl
bind_assoc (some a) f g = refl

-- The `n` bytes from place `i` on.
unfoldable pub fetch : List ℕ → ℕ → ℕ → Option (List ℕ)
fetch mem i n = if leb (i + n) (length mem) then some (take n (drop i mem)) else none

-- The block after `bytes` are copied to place `i`.
unfoldable pub store : List ℕ → ℕ → List ℕ → Option (List ℕ)
store mem i bytes =
    if leb (i + length bytes) (length mem)
    then some (take i mem ++ (bytes ++ drop (i + length bytes) mem))
    else none

module _ {ℓ} {A : Type ℓ} where
  pub take_prefix : (n : ℕ) (l r : List A) → n ≡ length l → take n (l ++ r) ≡ l
  take_prefix zero [] r h = refl
  take_prefix zero (x ∷ l) r h = absurd (omega arith)
  take_prefix (suc n) [] r h = absurd (omega arith)
  take_prefix (suc n) (x ∷ l) r h = ap (λ t. x ∷ t) (take_prefix n l r (omega arith))

  pub drop_prefix : (n : ℕ) (l r : List A) → n ≡ length l → drop n (l ++ r) ≡ r
  drop_prefix zero [] r h = refl
  drop_prefix zero (x ∷ l) r h = absurd (omega arith)
  drop_prefix (suc n) [] r h = absurd (omega arith)
  drop_prefix (suc n) (x ∷ l) r h = drop_prefix n l r (omega arith)

  pub take_all : (n : ℕ) (l : List A) → length l ≤ n → take n l ≡ l
  take_all zero [] h = refl
  take_all zero (x ∷ l) h = absurd (omega arith)
  take_all (suc n) [] h = refl
  take_all (suc n) (x ∷ l) h = ap (λ t. x ∷ t) (take_all n l (omega arith))

  pub drop-nil : (n : ℕ) → drop {A = A} n [] ≡ []
  drop-nil zero = refl
  drop-nil (suc n) = refl

  pub drop-drop : (m n : ℕ) (l : List A) → drop m (drop n l) ≡ drop (n + m) l
  drop-drop m zero l = ap (λ (k : ℕ). drop k l) sum
    where
      sum : m ≡ 0 + m
      sum = omega arith
  drop-drop m (suc n) [] = drop-nil m ∙ sym (drop-nil (suc n + m))
  drop-drop m (suc n) (x ∷ l) = drop-drop m n l ∙ ap (λ (k : ℕ). drop k (x ∷ l)) sum
    where
      sum : suc (n + m) ≡ suc n + m
      sum = omega arith

  pub take-take_of_le : (m n : ℕ) (l : List A) → m ≤ n → take m (take n l) ≡ take m l
  take-take_of_le zero n l h = refl
  take-take_of_le (suc m) zero l h = absurd (omega arith)
  take-take_of_le (suc m) (suc n) [] h = refl
  take-take_of_le (suc m) (suc n) (x ∷ l) h = ap (λ t. x ∷ t) (take-take_of_le m n l (omega arith))

  pub drop_all : (n : ℕ) (l : List A) → length l ≤ n → drop n l ≡ []
  drop_all zero [] h = refl
  drop_all zero (x ∷ l) h = absurd (omega arith)
  drop_all (suc n) [] h = refl
  drop_all (suc n) (x ∷ l) h = drop_all n l (omega arith)

  pub drop-take : (n m k : ℕ) (l : List A) → k ≡ n + m → drop n (take k l) ≡ take m (drop n l)
  drop-take zero m k l e = ap (λ (j : ℕ). take j l) (omega arith)
  drop-take (suc n) m zero l e = absurd (omega arith)
  drop-take (suc n) zero (suc k) [] e = refl
  drop-take (suc n) (suc m) (suc k) [] e = refl
  drop-take (suc n) m (suc k) (x ∷ l) e = drop-take n m k l (omega arith)

  pub take-append_of_le : (n : ℕ) (l r : List A) → n ≤ length l → take n (l ++ r) ≡ take n l
  take-append_of_le zero l r h = refl
  take-append_of_le (suc n) [] r h = absurd (omega arith)
  take-append_of_le (suc n) (x ∷ l) r h = ap (λ t. x ∷ t) (take-append_of_le n l r (omega arith))

  pub length-take_of_le : (n : ℕ) (l : List A) → n ≤ length l → length (take n l) ≡ n
  length-take_of_le n l h = omega (arith, length-take n l)

-- What a read finds between two pieces of a block, and what a write leaves.
pub fetch-append :
    (i n : ℕ) (l m r : List ℕ) → i ≡ length l → n ≡ length m → fetch (l ++ (m ++ r)) i n ≡ some m
unfolding fetch
fetch-append i n l m r p q =
    rw (drop_prefix i l (m ++ r) p, take_prefix n m r q)
      (ground (arith, length-append l (m ++ r), length-append m r))

pub fetch_of_le :
    (mem : List ℕ) (i n : ℕ) → i + n ≤ length mem → fetch mem i n ≡ some (take n (drop i mem))
unfolding fetch
fetch_of_le mem i n h = ground arith

pub fetch_short : (mem : List ℕ) (i n : ℕ) → length mem < i + n → fetch mem i n ≡ none
unfolding fetch
fetch_short mem i n h = ground arith

pub store_of_le :
    (mem : List ℕ) (i : ℕ) (bytes : List ℕ)
    → i + length bytes ≤ length mem
    → store mem i bytes ≡ some (take i mem ++ (bytes ++ drop (i + length bytes) mem))
unfolding store
store_of_le mem i bytes h = ground arith

pub store-append :
    (i : ℕ) (l m bytes r : List ℕ)
    → i ≡ length l
    → length bytes ≡ length m
    → store (l ++ (m ++ r)) i bytes ≡ some (l ++ (bytes ++ r))
store-append i l m bytes r p q =
    store_of_le (l ++ (m ++ r)) i bytes (omega (arith, length-append l (m ++ r), length-append m r))
    ∙ rw (
      take_prefix i l (m ++ r) p,
      ← drop-drop (length bytes) i (l ++ (m ++ r)),
      drop_prefix i l (m ++ r) p,
      drop_prefix (length bytes) m r q,
    )

pub store_short :
    (mem : List ℕ) (i : ℕ) (bytes : List ℕ)
    → length mem < i + length bytes
    → store mem i bytes ≡ none
unfolding store
store_short mem i bytes h = ground arith
