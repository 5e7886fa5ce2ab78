-- ===== src/Buffer/Sample.antt =====
-- A `realloc` that runs, which meets what `CSimpleBuffer` relies on.
use postfix_edm.Prelude.{
  ℕ, ◌≤◌, ◌≡◌, ◌∙◌, List, ◌++◌, Option, none, some, arith, length, take, replicate,
  length-replicate, length-append, length-take, ltb, if◌then◌else◌,
}
use postfix_edm.Buffer.{Allocator}
use postfix_edm.Buffer.Laws.{Grants}
use postfix_edm.Prelude.Memory.{take-append_of_le, take-take_of_le}

-- The first `n` bytes of a block followed by zeros.
abbrev pub resize : List ℕ → ℕ → List ℕ
resize b n = take n (b ++ replicate n 0)

length-resize : (b : List ℕ) (n : ℕ) → length (resize b n) ≡ n
length-resize b n = omega (
  arith,
  length-take n (b ++ replicate n 0),
  length-append b (replicate n 0),
  length-replicate {0} {A = ℕ} n 0,
)

-- A `realloc` that gives every size below `limit`.
abbrev pub give : ℕ → List ℕ → ℕ → Option (List ℕ)
give limit b n = if ltb n limit then some (resize b n) else none

pub give_size :
    (limit : ℕ) (b : List ℕ) (n : ℕ) {m : List ℕ} → give limit b n ≡ some m → length m ≡ n
give_size limit b n e = ground (arith, length-resize b n)

resize_keeps : (b : List ℕ) (n k : ℕ) → k ≤ length b → k ≤ n → take k (resize b n) ≡ take k b
resize_keeps b n k h g = take-take_of_le k n (b ++ replicate n 0) g ∙ take-append_of_le k b _ h

pub give_keeps :
    (limit : ℕ) (b : List ℕ) (n k : ℕ) {m : List ℕ}
    → give limit b n ≡ some m
    → k ≤ length b
    → k ≤ n
    → take k m ≡ take k b
give_keeps limit b n k e h g = ground (arith, resize_keeps b n k h g)

abbrev pub giving : ℕ → Allocator
giving limit = record {
  realloc = give limit;
  realloc_size = give_size limit;
  realloc_keeps = give_keeps limit;
}

pub giving-Grants : (limit : ℕ) → Grants (giving limit) limit
giving-Grants limit b n h = (resize b n, ground arith)
