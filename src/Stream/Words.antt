-- ===== src/Stream/Words.antt =====
-- c++/base/UtilPdu.cpp: the words of `CByteStream` as bytes, highest first.
use postfix_edm.Prelude.{
  ℕ, ◌+◌, ◌*◌, ◌/◌, ◌%◌, ◌^◌, ◌<◌, ◌≡◌, List, [], ◌∷◌, Option, some, get_or, length, ◌++◌, refl,
  bit_or, arith, ◌∙◌,
}
use postfix_edm.Prelude.Bits.{bit_or-eq-add}
use postfix_edm.Prelude.Memory.{fetch, fetch-append, store, ◌>>=◌}

-- `static_cast<uchar_t>(data >> 8)` and `data & 0xFF`.
abbrev pub bytes16 : ℕ → List ℕ
bytes16 d = d / 2 ^ 8 % 256 ∷ d % 256 ∷ []

abbrev pub bytes32 : ℕ → List ℕ
bytes32 d = d / 2 ^ 24 % 256 ∷ d / 2 ^ 16 % 256 ∷ d / 2 ^ 8 % 256 ∷ d % 256 ∷ []

-- `(buf[0] << 8) | buf[1]`, cut to the word.
unfoldable pub be16 : List ℕ → ℕ
be16 buf = bit_or (get_or buf 0 0 * 2 ^ 8) (get_or buf 1 0) % 2 ^ 16

unfoldable pub be32 : List ℕ → ℕ
be32 buf =
    bit_or
      (bit_or (bit_or (get_or buf 0 0 * 2 ^ 24) (get_or buf 1 0 * 2 ^ 16)) (get_or buf 2 0 * 2 ^ 8))
      (get_or buf 3 0)
    % 2 ^ 32

-- The static readers and writers, at a place in memory.
unfoldable pub read_uint16 : List ℕ → ℕ → Option ℕ
read_uint16 mem i = do buf ← fetch mem i 2; some (be16 buf)

unfoldable pub read_uint32 : List ℕ → ℕ → Option ℕ
read_uint32 mem i = do buf ← fetch mem i 4; some (be32 buf)

unfoldable pub write_uint16 : List ℕ → ℕ → ℕ → Option (List ℕ)
write_uint16 mem i d = store mem i (bytes16 d)

unfoldable pub write_uint32 : List ℕ → ℕ → ℕ → Option (List ℕ)
write_uint32 mem i d = store mem i (bytes32 d)

-- Reading back the bytes of a word gives the word.
pub be16-bytes16 : (d : ℕ) → d < 2 ^ 16 → be16 (bytes16 d) ≡ d
unfolding be16
be16-bytes16 d h = rw (bit_or-eq-add 8 (d / 2 ^ 8 % 256) (d % 256) (omega arith)) (omega arith)

or_bytes :
    (w x y z : ℕ)
    → x < 256
    → y < 256
    → z < 256
    → bit_or (bit_or (bit_or (w * 2 ^ 24) (x * 2 ^ 16)) (y * 2 ^ 8)) z
      ≡ w * 2 ^ 24 + x * 2 ^ 16 + y * 2 ^ 8 + z
or_bytes w x y z hx hy hz = rw (two, three) (four ∙ omega arith)
  where
    two : bit_or (w * 2 ^ 24) (x * 2 ^ 16) ≡ (w * 2 ^ 8 + x) * 2 ^ 16
    two = bit_or-eq-add 24 w (x * 2 ^ 16) (omega arith) ∙ omega arith

    three : bit_or ((w * 2 ^ 8 + x) * 2 ^ 16) (y * 2 ^ 8) ≡ (w * 2 ^ 16 + x * 2 ^ 8 + y) * 2 ^ 8
    three = bit_or-eq-add 16 (w * 2 ^ 8 + x) (y * 2 ^ 8) (omega arith) ∙ omega arith

    four :
        bit_or ((w * 2 ^ 16 + x * 2 ^ 8 + y) * 2 ^ 8) z ≡ (w * 2 ^ 16 + x * 2 ^ 8 + y) * 2 ^ 8 + z
    four = bit_or-eq-add 8 (w * 2 ^ 16 + x * 2 ^ 8 + y) z hz

pub be32-bytes32 : (d : ℕ) → d < 2 ^ 32 → be32 (bytes32 d) ≡ d
unfolding be32
be32-bytes32 d h =
    rw
      (or_bytes (d / 2 ^ 24 % 256) (d / 2 ^ 16 % 256) (d / 2 ^ 8 % 256) (d % 256) (omega arith)
        (omega arith) (omega arith))
      (omega arith)

-- The static readers find a word that lies between two pieces of memory.
pub read_uint16-append :
    (i : ℕ) (l r : List ℕ) (d : ℕ)
    → i ≡ length l
    → d < 2 ^ 16
    → read_uint16 (l ++ (bytes16 d ++ r)) i ≡ some d
unfolding read_uint16
read_uint16-append i l r d p h =
    rw (fetch-append i 2 l (bytes16 d) r p refl, ◌>>=◌, be16-bytes16 d h)

pub read_uint32-append :
    (i : ℕ) (l r : List ℕ) (d : ℕ)
    → i ≡ length l
    → d < 2 ^ 32
    → read_uint32 (l ++ (bytes32 d ++ r)) i ≡ some d
unfolding read_uint32
read_uint32-append i l r d p h =
    rw (fetch-append i 4 l (bytes32 d) r p refl, ◌>>=◌, be32-bytes32 d h)
