-- ===== src/Buffer/Laws.antt =====
-- What one call of `CSimpleBuffer` does to the bytes that the buffer holds.
use postfix_edm.Prelude.{
  ℕ, ◌+◌, ◌-◌, ◌/◌, ◌^◌, ◌≤◌, ◌<◌, ◌≡◌, refl, ap, sym, ◌∙◌, List, [], ◌++◌, none, some, Bool, true,
  false, arith, ltb, lt→ltb, length, take, drop, min, ◌-◌, [], length-drop, if◌then◌else◌,
  length-append, append_assoc, inl, inr, Bool-cases,
}
use postfix_edm.Prelude.Memory.{
  fetch, store, fetch_of_le, store_of_le, store_short, ◌>>=◌, take_prefix, take_all,
  take-take_of_le, drop-take, drop_all, length-take_of_le,
}
use postfix_edm.Buffer.{
  SimpleBuffer, Allocator, add32, extend, make_room, inc_write_offset, write, read, read_front,
}

-- The block has the size that the buffer remembers, and what is written lies within.
pub record IsValid (b : SimpleBuffer) : Type 0 where
  pub block : length b.buffer ≡ b.alloc_size
  pub within : b.write_offset ≤ b.alloc_size
  pub word : b.alloc_size < 2 ^ 32

-- The bytes that the buffer holds.
abbrev pub contents : SimpleBuffer → List ℕ
contents b = take b.write_offset b.buffer

-- `realloc` does not fail below `limit`.
abbrev pub Grants : Allocator → ℕ → Type 0
Grants a limit = (b : List ℕ) (n : ℕ) → n < limit → (m : List ℕ) × (a.realloc b n ≡ some m)

pub length-contents : {b : SimpleBuffer} → IsValid b → length (contents b) ≡ b.write_offset
length-contents {b} v = length-take_of_le b.write_offset b.buffer (omega arith)

-- The new size is a quarter more than is asked for, if that does not wrap.
abbrev pub grown : ℕ → ℕ → ℕ
grown off len = off + len + (off + len) / 4

abbrev Fits : SimpleBuffer → ℕ → Type 0
Fits b len = grown b.write_offset len < 2 ^ 32

pub record HasRoom (b b' : SimpleBuffer) (len : ℕ) : Type 0 where
  pub valid : IsValid b'
  pub same_offset : b'.write_offset ≡ b.write_offset
  pub same_contents : contents b' ≡ contents b
  pub room : b.write_offset + len ≤ b'.alloc_size

pub extend-HasRoom :
    (a : Allocator) (b : SimpleBuffer) (len limit : ℕ)
    → IsValid b
    → Grants a limit
    → grown b.write_offset len < limit
    → limit ≤ 2 ^ 32
    → b.alloc_size < b.write_offset + len
    → HasRoom b (extend a b len) len
unfolding extend
extend-HasRoom a b len limit v g fits small needed =
    let (m, e) = g b.buffer size (ground arith) in
    rw (e, extend)
      (record {
        valid = record {
          block = a.realloc_size b.buffer size e;
          within = omega arith;
          word = omega arith;
        };
        same_offset = refl;
        same_contents = a.realloc_keeps b.buffer size b.write_offset e (omega arith) (omega arith);
        room = omega arith;
      })
  where
    size : ℕ
    size = add32 (add32 b.write_offset len) (add32 b.write_offset len / 4)

-- With room for `len` more bytes the first `if` of `Write` keeps the bytes.
make_room-HasRoom :
    (a : Allocator) (b : SimpleBuffer) (len limit : ℕ)
    → IsValid b
    → Grants a limit
    → grown b.write_offset len < limit
    → limit ≤ 2 ^ 32
    → HasRoom b (make_room a b len) len
unfolding make_room
make_room-HasRoom a b len limit v g fits small =
    elim (Bool-cases (ltb b.alloc_size (add32 b.write_offset len))) [
      | inl e ↦ rw e (extend-HasRoom a b len limit v g fits small (ground arith))
      | inr e ↦
          rw e (record { valid = v; same_offset = refl; same_contents = refl; room = ground arith })
    ]

-- The buffer after `bytes` are copied behind what is written.
abbrev pub filled : SimpleBuffer → List ℕ → SimpleBuffer
filled b bytes = record b {
  buffer = take b.write_offset b.buffer ++ (bytes ++ drop (b.write_offset + length bytes) b.buffer);
  write_offset = b.write_offset + length bytes;
}

pub filled-IsValid :
    (b : SimpleBuffer) (bytes : List ℕ)
    → IsValid b
    → b.write_offset + length bytes ≤ b.alloc_size
    → IsValid (filled b bytes)
filled-IsValid b bytes v h = record {
  block = omega (
    arith,
    length-append (contents b) (bytes ++ drop (b.write_offset + length bytes) b.buffer),
    length-append bytes (drop (b.write_offset + length bytes) b.buffer),
    length-contents v,
    length-drop (b.write_offset + length bytes) b.buffer,
    v.block,
  );
  within = omega arith;
  word = v.word;
}

pub contents-filled :
    (b : SimpleBuffer) (bytes : List ℕ)
    → IsValid b
    → contents (filled b bytes) ≡ contents b ++ bytes
contents-filled b bytes v =
    ap (λ l. take (b.write_offset + length bytes) l) (sym (append_assoc (contents b) bytes rest))
    ∙ take_prefix (b.write_offset + length bytes) (contents b ++ bytes) rest
        (omega (arith, length-append (contents b) bytes, length-contents v))
  where
    rest : List ℕ
    rest = drop (b.write_offset + length bytes) b.buffer

-- A write of `len` bytes succeeds, returns `len` and appends the bytes.
pub write_lem :
    (a : Allocator) (b : SimpleBuffer) (src : List ℕ) (len limit : ℕ)
    → IsValid b
    → Grants a limit
    → grown b.write_offset len < limit
    → limit ≤ 2 ^ 32
    → len ≤ length src
    → (b' : SimpleBuffer) × (write a b (some src) len ≡ some (len, b'))
      × IsValid b'
      × (contents b' ≡ contents b ++ take len src)
unfolding write inc_write_offset
write_lem a b src len limit v g fits small enough = (
  filled b' bytes,
  runs,
  filled-IsValid b' bytes r.valid (omega (arith, n, r.room, r.same_offset)),
  holds,
)
  where
    b' : SimpleBuffer
    b' = make_room a b len

    bytes : List ℕ
    bytes = take len src

    r : HasRoom b b' len
    r = make_room-HasRoom a b len limit v g fits small

    n : length bytes ≡ len
    n = length-take_of_le len src enough

    holds : contents (filled b' bytes) ≡ contents b ++ bytes
    holds = contents-filled b' bytes r.valid ∙ ap (λ l. l ++ bytes) r.same_contents

    sum : add32 b'.write_offset len ≡ b'.write_offset + length bytes
    sum = omega (arith, n, r.room, r.same_offset, r.valid)

    runs : write a b (some src) len ≡ some (len, filled b' bytes)
    runs =
        rw
          (
            fetch_of_le src 0 len (omega arith),
            ◌>>=◌,
            store_of_le b'.buffer b'.write_offset bytes
                (omega (arith, n, r.room, r.same_offset, r.valid)),
          )
          (ap (λ k. some (len, record (filled b' bytes) { write_offset = k })) sum)

-- A write from a null pointer succeeds, returns `len` and makes the buffer `len` bytes longer,
-- with what it held in front.
pub write_null :
    (a : Allocator) (b : SimpleBuffer) (len limit : ℕ)
    → IsValid b
    → Grants a limit
    → grown b.write_offset len < limit
    → limit ≤ 2 ^ 32
    → (b' : SimpleBuffer) × (write a b none len ≡ some (len, b'))
      × IsValid b'
      × (b'.write_offset ≡ b.write_offset + len)
      × (take b.write_offset (contents b') ≡ contents b)
unfolding write inc_write_offset
write_null a b len limit v g fits small = (
  inc_write_offset b' len,
  refl,
  record { block = r.valid.block; within = omega (arith, sum, r.room); word = r.valid.word },
  sum,
  take-take_of_le b.write_offset (add32 b'.write_offset len) b'.buffer (omega (arith, sum))
      ∙ ap (λ (k : ℕ). take k b'.buffer) (sym r.same_offset)
      ∙ r.same_contents,
)
  where
    b' : SimpleBuffer
    b' = make_room a b len

    r : HasRoom b b' len
    r = make_room-HasRoom a b len limit v g fits small

    sum : add32 b'.write_offset len ≡ b.write_offset + len
    sum = omega (arith, r.room, r.same_offset, r.valid)

-- The buffer after its first `n` bytes are moved out.
abbrev shifted : SimpleBuffer → ℕ → SimpleBuffer
shifted b n =
    let rest = b.write_offset - n in
    let kept = take rest (drop n b.buffer) in
    record b { buffer = kept ++ drop (0 + length kept) b.buffer; write_offset = rest }

module _ (b : SimpleBuffer) (n : ℕ) (v : IsValid b) (h : n ≤ b.write_offset) where
  length-kept : length (take (b.write_offset - n) (drop n b.buffer)) ≡ b.write_offset - n
  length-kept =
      length-take_of_le (b.write_offset - n) (drop n b.buffer)
        (omega (arith, length-drop n b.buffer))

  shifted-IsValid : IsValid (shifted b n)
  shifted-IsValid = record {
    block = omega (
      arith,
      length-append (take (b.write_offset - n) (drop n b.buffer))
          (drop (0 + length (take (b.write_offset - n) (drop n b.buffer))) b.buffer),
      length-drop (0 + length (take (b.write_offset - n) (drop n b.buffer))) b.buffer,
      length-kept,
    );
    within = omega arith;
    word = v.word;
  }

  contents-shifted : contents (shifted b n) ≡ drop n (contents b)
  contents-shifted =
      take_prefix (b.write_offset - n) _ _ (sym length-kept)
      ∙ sym (drop-take n (b.write_offset - n) b.write_offset b.buffer (omega arith))

  -- The two copies of `Read` stay inside the block.
  read_front_runs :
      (into : Bool)
      → read_front b into n ≡ some (if into then take n (contents b) else [], n, shifted b n)
  unfolding read_front
  read_front_runs into =
      elim into
        as (λ (t : Bool).
          read_front b t n ≡ some (if t then take n (contents b) else [], n, shifted b n)) [
            | true ↦ rw (copied, ◌>>=◌, moved, stored)
            | false ↦ rw (moved, ◌>>=◌, stored)
          ]
    where
      copied : fetch b.buffer 0 n ≡ some (take n (contents b))
      copied =
          fetch_of_le b.buffer 0 n (omega arith)
          ∙ ap some (sym (take-take_of_le n b.write_offset b.buffer h))

      moved :
          fetch b.buffer n (b.write_offset - n) ≡ some (take (b.write_offset - n) (drop n b.buffer))
      moved = fetch_of_le b.buffer n (b.write_offset - n) (omega arith)

      stored :
          store b.buffer 0 (take (b.write_offset - n) (drop n b.buffer)) ≡ some (shifted b n).buffer
      stored = store_of_le b.buffer 0 _ (omega (arith, length-kept))

-- A read takes at most `len` bytes off the front: it copies them out where it is given a target,
-- returns their number, and leaves the rest.
pub read_lem :
    (b : SimpleBuffer) (into : Bool) (len : ℕ)
    → IsValid b
    → (b' : SimpleBuffer) × (read b into len
        ≡ some (if into then take len (contents b) else [], min len b.write_offset, b'))
      × IsValid b'
      × (contents b' ≡ drop len (contents b))
unfolding read
read_lem b into len v = elim (Bool-cases (ltb b.write_offset len)) [
  | inl e ↦
      let over : b.write_offset < len = ground arith in
      let all : (k : ℕ) → b.write_offset ≤ k → take k (contents b) ≡ contents b =
        λ k h. take_all k (contents b) (omega (arith, length-contents v)) in
      let out : take b.write_offset (contents b) ≡ take len (contents b) =
        all b.write_offset (omega arith) ∙ sym (all len (omega arith)) in
      let num : b.write_offset ≡ min len b.write_offset = omega arith in
      (
        shifted b b.write_offset,
        rw e (
            read_front_runs b b.write_offset v (omega arith) into ∙ λ i.
            some (if into then out i else [], num i, shifted b b.write_offset)),
        shifted-IsValid b b.write_offset v (omega arith),
        contents-shifted b b.write_offset v (omega arith)
            ∙ drop_all b.write_offset (contents b) (omega (arith, length-contents v))
            ∙ sym (drop_all len (contents b) (omega (arith, length-contents v))),
      )
  | inr e ↦
      let inside : len ≤ b.write_offset = ground arith in
      let num : len ≡ min len b.write_offset = omega arith in
      (
        shifted b len,
        rw e (
            read_front_runs b len v inside into ∙ λ i.
            some (if into then take len (contents b) else [], num i, shifted b len)),
        shifted-IsValid b len v inside,
        contents-shifted b len v inside,
      )
]

-- A buffer that has to grow and cannot: where `realloc` fails, the copy of `Write` runs past the
-- end of the old block, whatever the bytes are.
pub write_overruns :
    (a : Allocator) (b : SimpleBuffer) (src : List ℕ) (len : ℕ)
    → IsValid b
    → grown b.write_offset len < 2 ^ 32
    → len ≤ length src
    → b.alloc_size < b.write_offset + len
    → a.realloc b.buffer (grown b.write_offset len) ≡ none
    → write a b (some src) len ≡ none
unfolding write
write_overruns a b src len v fits enough needed failed =
    rw (fetch_of_le src 0 len (omega arith), ◌>>=◌, stays, overrun, ◌>>=◌)
  where
    size :
        add32 (add32 b.write_offset len) (add32 b.write_offset len / 4) ≡ grown b.write_offset len
    size = omega arith

    stays : make_room a b len ≡ record b { alloc_size = grown b.write_offset len }
    stays =
        unfold make_room extend in
        rw (lt→ltb b.alloc_size (add32 b.write_offset len) (omega arith)) (
          rw (ap (a.realloc b.buffer) size ∙ failed, extend)
            (ap (λ (k : ℕ). record b { alloc_size = k }) size))

    overrun : store b.buffer b.write_offset (take len src) ≡ none
    overrun =
        store_short b.buffer b.write_offset _ (omega (arith, length-take_of_le len src enough, v))
