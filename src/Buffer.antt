-- ===== src/Buffer.antt =====
-- c++/base/UtilPdu.h and UtilPdu.cpp: CSimpleBuffer, a growing byte buffer on a malloc block.
-- `realloc` is the C library's, so it is a parameter. An access outside the block is `none`.
pub mod Laws
pub mod Refine
pub mod Sample
mod Tests
use postfix_edm.Prelude.{
  ℕ, ◌+◌, ◌-◌, ◌/◌, ◌%◌, ◌^◌, ◌≤◌, ◌≡◌, List, [], Option, none, some, Bool, true, false, ltb,
  if◌then◌else◌, length, take, min,
}
use postfix_edm.Prelude.Memory.{fetch, store, ◌>>=◌}

-- `m_buffer` is the block itself, empty for the null pointer.
pub record SimpleBuffer : Type 0 where
  pub buffer : List ℕ
  pub alloc_size : ℕ
  pub write_offset : ℕ

-- uint32_t addition.
abbrev pub add32 : ℕ → ℕ → ℕ
add32 a b = (a + b) % 2 ^ 32

-- What the buffer relies on of `realloc`: a new block has the size asked for and keeps the old
-- bytes. It may always fail.
pub record Allocator : Type 0 where
  pub realloc : List ℕ → ℕ → Option (List ℕ)
  pub realloc_size : (b : List ℕ) (n : ℕ) {m : List ℕ} → realloc b n ≡ some m → length m ≡ n
  pub realloc_keeps :
      (b : List ℕ) (n k : ℕ) {m : List ℕ}
      → realloc b n ≡ some m
      → k ≤ length b
      → k ≤ n
      → take k m ≡ take k b

-- The constructor.
unfoldable pub empty : SimpleBuffer
empty = record { buffer = []; alloc_size = 0; write_offset = 0 }

unfoldable pub inc_write_offset : SimpleBuffer → ℕ → SimpleBuffer
inc_write_offset b len = record b { write_offset = add32 b.write_offset len }

-- The size is raised also where `realloc` fails and the old block stays.
unfoldable pub extend : Allocator → SimpleBuffer → ℕ → SimpleBuffer
extend a b len =
    let want = add32 b.write_offset len in
    let size = add32 want (want / 4) in
    elim (a.realloc b.buffer size) [
      | none ↦ record b { alloc_size = size }
      | some m ↦ record b { buffer = m; alloc_size = size }
    ]

-- The first `if` of `Write`.
unfoldable pub make_room : Allocator → SimpleBuffer → ℕ → SimpleBuffer
make_room a b len = if ltb b.alloc_size (add32 b.write_offset len) then extend a b len else b

-- `none` as the source is the null pointer: nothing is copied, and the offset moves all the same.
-- The result is the buffer beside the returned length.
unfoldable pub write : Allocator → SimpleBuffer → Option (List ℕ) → ℕ → Option (ℕ × SimpleBuffer)
write a b none len = some (len, inc_write_offset (make_room a b len) len)
write a b (some src) len = do
  let b' = make_room a b len
  bytes ← fetch src 0 len
  m ← store b'.buffer b'.write_offset bytes
  some (len, inc_write_offset (record b' { buffer = m }) len)

-- `Read` once `len` is at most the offset, so that the subtraction does not wrap. `into` says
-- whether the target is not null. The result is what is copied out, the length and the buffer.
unfoldable pub read_front : SimpleBuffer → Bool → ℕ → Option (List ℕ × ℕ × SimpleBuffer)
read_front b into len = do
  out ← (if into then fetch b.buffer 0 len else some [])
  let rest = b.write_offset - len
  kept ← fetch b.buffer len rest
  m ← store b.buffer 0 kept
  some (out, len, record b { buffer = m; write_offset = rest })

unfoldable pub read : SimpleBuffer → Bool → ℕ → Option (List ℕ × ℕ × SimpleBuffer)
read b into len = read_front b into (if ltb b.write_offset len then b.write_offset else len)
