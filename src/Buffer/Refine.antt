-- ===== src/Buffer/Refine.antt =====
-- Calls of `CSimpleBuffer` in any order, against a queue of bytes.
use postfix_edm.Prelude.{
  ℕ, ◌+◌, ◌^◌, ◌≤◌, ◌<◌, ◌≡◌, refl, ap, ◌∙◌, List, [], ◌∷◌, ◌++◌, Option, some, true, arith, length,
  min, take, drop, length-append, length-drop,
}
use postfix_edm.Prelude.Memory.{◌>>=◌, take_all}
use postfix_edm.Buffer.{SimpleBuffer, Allocator, write, read}
use postfix_edm.Buffer.Laws.{IsValid, contents, Grants, grown, length-contents, write_lem, read_lem}

-- `Write` of some bytes, and `Read` of at most so many.
pub data Op : Type 0 where
  put : List ℕ → Op
  get : ℕ → Op

-- What the reads copy out, and the buffer at the end.
unfoldable pub run : Allocator → SimpleBuffer → List Op → Option (List (List ℕ) × SimpleBuffer)
run a b [] = some ([], b)
run a b (put bytes ∷ ops) = do (n, b') ← write a b (some bytes) (length bytes); run a b' ops
run a b (get n ∷ ops) = do
  (out, k, b') ← read b true n
  (outs, last) ← run a b' ops
  some (out ∷ outs, last)

-- The same calls on a queue: what the reads return, and what is left.
unfoldable pub served : List ℕ → List Op → List (List ℕ)
served q [] = []
served q (put bytes ∷ ops) = served (q ++ bytes) ops
served q (get n ∷ ops) = take n q ∷ served (drop n q) ops

unfoldable pub left : List ℕ → List Op → List ℕ
left q [] = q
left q (put bytes ∷ ops) = left (q ++ bytes) ops
left q (get n ∷ ops) = left (drop n q) ops

abbrev pub total : List Op → ℕ
total [] = 0
total (put bytes ∷ ops) = length bytes + total ops
total (get n ∷ ops) = total ops

-- What the theorem below says of the calls `ops` from `b` on, with `q` in the buffer.
Serves : Allocator → SimpleBuffer → List ℕ → List Op → Type 0
Serves a b q ops =
    (b' : SimpleBuffer) × (run a b ops ≡ some (served q ops, b'))
    × IsValid b'
    × (contents b' ≡ left q ops)

put-Serves :
    (a : Allocator) (b b' : SimpleBuffer) (n : ℕ) (q bytes : List ℕ) (ops : List Op)
    → write a b (some bytes) (length bytes) ≡ some (n, b')
    → Serves a b' (q ++ bytes) ops
    → Serves a b q (put bytes ∷ ops)
unfolding Serves run served left
put-Serves a b b' n q bytes ops ran (last, rest, v, holds) = (last, rw (ran, ◌>>=◌) rest, v, holds)

get-Serves :
    (a : Allocator) (b b' : SimpleBuffer) (n k : ℕ) (q : List ℕ) (ops : List Op)
    → read b true n ≡ some (take n q, k, b')
    → Serves a b' (drop n q) ops
    → Serves a b q (get n ∷ ops)
unfolding Serves run served left
get-Serves a b b' n k q ops ran (last, rest, v, holds) = (last, rw (ran, ◌>>=◌, rest), v, holds)

run-Serves :
    (a : Allocator) (limit : ℕ) (b : SimpleBuffer) (q : List ℕ) (ops : List Op)
    → Grants a limit
    → limit ≤ 2 ^ 32
    → IsValid b
    → contents b ≡ q
    → grown b.write_offset (total ops) < limit
    → Serves a b q ops
run-Serves a limit b q [] g small v e fits = unfold Serves run served left in (b, refl, v, e)
run-Serves a limit b q (put bytes ∷ ops) g small v e fits =
    let (b', ran, v', holds) =
      write_lem a b bytes (length bytes) limit v g (omega arith) small (omega arith) in
    put-Serves a b b' (length bytes) q bytes ops ran (
      run-Serves a limit b' (q ++ bytes) ops g small v' (after b' holds)
        (size b' v' (after b' holds)))
  where
    after :
        (b' : SimpleBuffer)
        → contents b' ≡ contents b ++ take (length bytes) bytes
        → contents b' ≡ q ++ bytes
    after b' h = h ∙ λ i. e i ++ take_all (length bytes) bytes (omega arith) i

    size :
        (b' : SimpleBuffer)
        → IsValid b'
        → contents b' ≡ q ++ bytes
        → grown b'.write_offset (total ops) < limit
    size b' v' h = omega (
      arith,
      length-contents v,
      length-contents v',
      ap length h,
      ap length e,
      length-append q bytes,
      fits,
    )
run-Serves a limit b q (get n ∷ ops) g small v e fits =
    let (b', ran, v', holds) = read_lem b true n v in
    get-Serves a b b' n _ q ops (ran ∙ ap (λ l. some (take n l, min n b.write_offset, b')) e)
      (run-Serves a limit b' (drop n q) ops g small v' (holds ∙ ap (drop n) e) (size b' v' holds))
  where
    size :
        (b' : SimpleBuffer)
        → IsValid b'
        → contents b' ≡ drop n (contents b)
        → grown b'.write_offset (total ops) < limit
    size b' v' h = omega (
      arith,
      length-contents v,
      length-contents v',
      ap length h,
      length-drop n (contents b),
      fits,
    )

-- A buffer in use behaves as a queue of bytes: while all that is put in, with a quarter on top,
-- stays below `limit`, where `realloc` does not fail, no call faults, the reads return what the
-- queue returns, and at the end the buffer is valid and holds what the queue holds.
pub run_refines :
    (a : Allocator) (limit : ℕ) (b : SimpleBuffer) (ops : List Op)
    → Grants a limit
    → limit ≤ 2 ^ 32
    → IsValid b
    → grown b.write_offset (total ops) < limit
    → (b' : SimpleBuffer) × (run a b ops ≡ some (served (contents b) ops, b'))
      × IsValid b'
      × (contents b' ≡ left (contents b) ops)
unfolding Serves
run_refines a limit b ops g small v fits = run-Serves a limit b (contents b) ops g small v refl fits
