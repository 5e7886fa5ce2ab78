-- ===== src/Stream/Laws.antt =====
-- What one operator of `CByteStream` reads from memory, or appends to a buffer.
use postfix_edm.Prelude.{
  ℕ, ◌+◌, ◌/◌, ◌%◌, ◌^◌, ◌≤◌, ◌<◌, ◌≡◌, refl, ap, ◌∙◌, List, ◌++◌, some, arith, length, take, drop,
  length-append, length-drop, append_assoc,
}
use postfix_edm.Prelude.Memory.{fetch_of_le, ◌>>=◌, take_all, take_prefix}
use postfix_edm.Buffer.{SimpleBuffer, Allocator, add32}
use postfix_edm.Buffer.Laws.{IsValid, contents, Grants, grown, length-contents, write_lem}
use postfix_edm.Stream.Words.{be16, be32, bytes16, bytes32, be16-bytes16, be32-bytes32}
use postfix_edm.Stream.{
  ByteStream, raw, simple, skip, read_byte, write_byte, get16, get32, put16, put32, write_data,
  write_string, read_string,
}

-- A stream over memory.
abbrev pub at : List ℕ → ℕ → ℕ → ByteStream
at mem len pos = record { target = raw mem; len = len; pos = pos }

module _ (mem : List ℕ) (len pos : ℕ) where
  -- A read within the stream takes the bytes at its place.
  pub read_byte_within :
      (bytes rest array : List ℕ) (n : ℕ)
      → drop pos mem ≡ bytes ++ rest
      → n ≡ length bytes
      → 0 < n
      → pos + n ≤ len
      → len < 2 ^ 32
      → read_byte (at mem len pos) array n ≡ some (bytes, at mem len (pos + n))
  unfolding read_byte skip
  read_byte_within bytes rest array n e m p h w = ground (
    arith,
    fetch_of_le mem pos n inside ∙ ap some (ap (take n) e ∙ take_prefix n bytes rest m),
    fits,
  )
    where
      inside : pos + n ≤ length mem
      inside = omega (arith, ap length e, length-append bytes rest, length-drop pos mem)

      fits : add32 pos n ≡ pos + n
      fits = omega arith

  -- A read past the end leaves the array and the stream as they are.
  pub read_byte_past :
      (array : List ℕ) (n : ℕ)
      → len < pos + n
      → pos + n < 2 ^ 32
      → read_byte (at mem len pos) array n ≡ some (array, at mem len pos)
  unfolding read_byte
  read_byte_past array n h w = ground arith

  -- `>>` of a word that lies at the place, and of one that is cut off.
  module _ (array : List ℕ) (w : len < 2 ^ 32) where
    pub get16_within :
        (d : ℕ) (rest : List ℕ)
        → drop pos mem ≡ bytes16 d ++ rest
        → d < 2 ^ 16
        → pos + 2 ≤ len
        → get16 (at mem len pos) array ≡ some (d, at mem len (pos + 2))
    unfolding get16
    get16_within d rest e small h = rw (
      read_byte_within (bytes16 d) rest array 2 e (omega arith) (omega arith) h w,
      ◌>>=◌,
      be16-bytes16 d small,
    )

    pub get32_within :
        (d : ℕ) (rest : List ℕ)
        → drop pos mem ≡ bytes32 d ++ rest
        → d < 2 ^ 32
        → pos + 4 ≤ len
        → get32 (at mem len pos) array ≡ some (d, at mem len (pos + 4))
    unfolding get32
    get32_within d rest e small h = rw (
      read_byte_within (bytes32 d) rest array 4 e (omega arith) (omega arith) h w,
      ◌>>=◌,
      be32-bytes32 d small,
    )

    pub read_string_within :
        (d : ℕ) (rest : List ℕ)
        → drop pos mem ≡ bytes32 d ++ rest
        → d < 2 ^ 32
        → pos + 4 ≤ len
        → read_string (at mem len pos) array
          ≡ some (record { place = pos + 4; size = d }, at mem len (add32 (pos + 4) d))
    unfolding read_string skip
    read_string_within d rest e small h = rw (get32_within d rest e small h, ◌>>=◌)

    pub get16_past :
        len < pos + 2
        → pos + 2 < 2 ^ 32
        → get16 (at mem len pos) array ≡ some (be16 array, at mem len pos)
    unfolding get16
    get16_past h f = rw (read_byte_past array 2 h f, ◌>>=◌)

    pub get32_past :
        len < pos + 4
        → pos + 4 < 2 ^ 32
        → get32 (at mem len pos) array ≡ some (be32 array, at mem len pos)
    unfolding get32
    get32_past h f = rw (read_byte_past array 4 h f, ◌>>=◌)

-- The stream writes to a valid buffer that holds `c`.
pub record Holds (s : ByteStream) (c : List ℕ) : Type 0 where
  pub buffer : SimpleBuffer
  pub over : s.target ≡ simple buffer
  pub valid : IsValid buffer
  pub bytes : contents buffer ≡ c

-- The room that a buffer of `n` bytes asks `realloc` for.
abbrev pub quarter_more : ℕ → ℕ
quarter_more n = n + n / 4

module _ (a : Allocator) (limit : ℕ) (g : Grants a limit) (small : limit ≤ 2 ^ 32) where
  pub write_byte_appends :
      (s : ByteStream) (c src : List ℕ) (n : ℕ)
      → Holds s c
      → quarter_more (length c + n) < limit
      → n ≤ length src
      → (s' : ByteStream) × (write_byte a s (some src) n ≡ some s') × Holds s' (c ++ take n src)
  unfolding write_byte
  write_byte_appends s c src n h fits enough =
      let (b', ran, v, holds) = write_lem a h.buffer src n limit h.valid g room small enough in
      (
        record s { target = simple b'; pos = add32 s.pos n },
        rw (h.over, ran, ◌>>=◌),
        record {
          buffer = b';
          over = refl;
          valid = v;
          bytes = holds ∙ ap (λ l. l ++ take n src) h.bytes;
        },
      )
    where
      room : grown h.buffer.write_offset n < limit
      room = omega (arith, length-contents h.valid, ap length h.bytes, fits)

  -- The same for a whole list.
  write_all_appends :
      (s : ByteStream) (c src : List ℕ)
      → Holds s c
      → quarter_more (length c + length src) < limit
      → (s' : ByteStream) × (write_byte a s (some src) (length src) ≡ some s') × Holds s' (c ++ src)
  write_all_appends s c src h fits =
      let (s', ran, h') = write_byte_appends s c src (length src) h fits (omega arith) in
      (s', ran, rw (take_all (length src) src (omega arith)) at h')

  -- `<<` of a word appends its bytes.
  pub put16_appends :
      (s : ByteStream) (c : List ℕ) (d : ℕ)
      → Holds s c
      → quarter_more (length c + 2) < limit
      → (s' : ByteStream) × (put16 a s d ≡ some s') × Holds s' (c ++ bytes16 d)
  unfolding put16
  put16_appends s c d h fits = write_all_appends s c (bytes16 d) h fits

  pub put32_appends :
      (s : ByteStream) (c : List ℕ) (d : ℕ)
      → Holds s c
      → quarter_more (length c + 4) < limit
      → (s' : ByteStream) × (put32 a s d ≡ some s') × Holds s' (c ++ bytes32 d)
  unfolding put32
  put32_appends s c d h fits = write_all_appends s c (bytes32 d) h fits

  -- A string is its length and its bytes.
  pub write_data_appends :
      (s : ByteStream) (c text : List ℕ)
      → Holds s c
      → quarter_more (length c + (4 + length text)) < limit
      → (s' : ByteStream) × (write_data a s (some text) (length text) ≡ some s')
        × Holds s' (c ++ (bytes32 (length text) ++ text))
  unfolding write_data
  write_data_appends s c text h fits =
      let (s', ran, h') = put32_appends s c (length text) h (omega arith) in
      let (s'', ran', h'') =
        write_all_appends s' (c ++ bytes32 (length text)) text h'
          (omega (arith, length-append c (bytes32 (length text)), fits)) in
      (s'', rw (ran, ◌>>=◌) ran', rw (append_assoc c (bytes32 (length text)) text) at h'')

  pub write_string_appends :
      (s : ByteStream) (c text : List ℕ)
      → Holds s c
      → quarter_more (length c + (4 + length text)) < limit
      → (s' : ByteStream) × (write_string a s (some text) ≡ some s')
        × Holds s' (c ++ (bytes32 (length text) ++ text))
  unfolding write_string
  write_string_appends s c text h fits =
      let same : length text % 2 ^ 32 ≡ length text = omega arith in
      rw same (unfold write_data in write_data_appends s c text h fits)
