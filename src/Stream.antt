-- ===== src/Stream.antt =====
-- c++/base/UtilPdu.h and UtilPdu.cpp: CByteStream, words and strings in network byte order, over a
-- block of memory or over a CSimpleBuffer. A signed word is its bit pattern. An access outside the
-- memory is `none`.
pub mod Words
pub mod Laws
use postfix_edm.Prelude.{
  ℕ, ◌+◌, ◌-◌, ◌*◌, ◌/◌, ◌%◌, ◌^◌, ◌≡◌, List, [], ◌∷◌, ◌++◌, Option, none, some, Bool, true, ltb,
  if◌then◌else◌, length, take, drop, get_or, ◌==◌,
}
use postfix_edm.Prelude.Memory.{fetch, store, ◌>>=◌}
use postfix_edm.Buffer.{SimpleBuffer, Allocator, add32, write, read}
use Words.{be16, be32, bytes16, bytes32}

-- `m_pSimpBuf`, or else `m_pBuf` with all the memory that lies behind that pointer.
pub data Target : Type 0 where
  simple : SimpleBuffer → Target
  raw : List ℕ → Target

pub record ByteStream : Type 0 where
  pub target : Target
  pub len : ℕ
  pub pos : ℕ

-- The two constructors.
unfoldable pub over_memory : List ℕ → ℕ → ByteStream
over_memory mem len = record { target = raw mem; len = len; pos = 0 }

unfoldable pub over_buffer : SimpleBuffer → ℕ → ByteStream
over_buffer b pos = record { target = simple b; len = 0; pos = pos }

unfoldable pub skip : ByteStream → ℕ → ByteStream
skip s len = record s { pos = add32 s.pos len }

-- `_ReadByte` into a local array that holds `array` before: what it holds afterwards, and the
-- stream. A read past the end returns at once and leaves the array as it is.
unfoldable pub read_byte : ByteStream → List ℕ → ℕ → Option (List ℕ × ByteStream)
read_byte s array n = if ltb s.len (add32 s.pos n) then some (array, s) else elim s.target [
  | simple b ↦ do
    (out, k, b') ← read b true n
    some (out ++ drop (length out) array, record s { target = simple b'; pos = add32 s.pos n })
  | raw mem ↦ do out ← fetch mem s.pos n; some (out, skip s n)
]

-- `_WriteByte`; `none` as the source is the null pointer.
unfoldable pub write_byte : Allocator → ByteStream → Option (List ℕ) → ℕ → Option ByteStream
write_byte a s src n = elim s.target [
  | simple b ↦ do
    (k, b') ← write a b src n
    some (record s { target = simple b'; pos = add32 s.pos n })
  | raw mem ↦ if ltb s.len (add32 s.pos n) then some s else (do
    bytes ← elim src [ none ↦ (if n == 0 then some [] else none) | some m ↦ fetch m 0 n ]
    mem' ← store mem s.pos bytes
    some (record s { target = raw mem'; pos = add32 s.pos n }))
]

-- The operators `<<` and `>>`, for 8, 16 and 32 bits; `array` is what the local array of `>>` holds
-- before anything is read.
unfoldable pub put8 : Allocator → ByteStream → ℕ → Option ByteStream
put8 a s d = write_byte a s (some (d ∷ [])) 1

unfoldable pub put16 : Allocator → ByteStream → ℕ → Option ByteStream
put16 a s d = write_byte a s (some (bytes16 d)) 2

unfoldable pub put32 : Allocator → ByteStream → ℕ → Option ByteStream
put32 a s d = write_byte a s (some (bytes32 d)) 4

unfoldable pub get8 : ByteStream → List ℕ → Option (ℕ × ByteStream)
get8 s array = do (bytes, s') ← read_byte s array 1; some (get_or bytes 0 0, s')

unfoldable pub get16 : ByteStream → List ℕ → Option (ℕ × ByteStream)
get16 s array = do (bytes, s') ← read_byte s array 2; some (be16 bytes, s')

unfoldable pub get32 : ByteStream → List ℕ → Option (ℕ × ByteStream)
get32 s array = do (bytes, s') ← read_byte s array 4; some (be32 bytes, s')

-- `WriteString(str)`: a null pointer has length 0. The text is the bytes before the terminating 0.
unfoldable pub write_string : Allocator → ByteStream → Option (List ℕ) → Option ByteStream
write_string a s str = do
  let size : ℕ = elim str [ none ↦ 0 | some text ↦ length text % 2 ^ 32 ]
  s' ← put32 a s size
  write_byte a s' str size

-- `WriteString(str, len)` and `WriteData`.
unfoldable pub write_data : Allocator → ByteStream → Option (List ℕ) → ℕ → Option ByteStream
write_data a s bytes len = do s' ← put32 a s len; write_byte a s' bytes len

-- The pointer that `ReadString` returns, as a place in the stream's memory, and the length.
pub record Slice : Type 0 where
  pub place : ℕ
  pub size : ℕ

-- `ReadString` and `ReadData`: the length is not held against the end.
unfoldable pub read_string : ByteStream → List ℕ → Option (Slice × ByteStream)
read_string s array = do
  (len, s') ← get32 s array
  some (record { place = s'.pos; size = len }, skip s' len)
