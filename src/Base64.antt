-- ===== src/Base64.antt =====
-- c++/base/base64.cpp: `base64_encode` and `base64_decode`. A character is its code; `x & 3` is
-- `x % 4`, `(x & 0xf0) >> 4` of a byte is `x / 16`, and so on. Sums are of type unsigned char.
pub mod RoundTrip
mod Tests
use postfix_edm.Prelude.{
  ℕ, zero, suc, ◌+◌, ◌-◌, ◌*◌, ◌/◌, ◌%◌, ◌^◌, List, [], ◌∷◌, ◌++◌, Bool, true, false, ◌&&◌, ◌||◌,
  not, leb, ◌==◌, if◌then◌else◌,
}

-- `base64_chars`.
abbrev pub base64_chars : List ℕ
base64_chars =
    65 ∷ 66 ∷ 67 ∷ 68 ∷ 69 ∷ 70 ∷ 71 ∷ 72 ∷ 73 ∷ 74 ∷ 75 ∷ 76 ∷ 77 ∷ 78 ∷ 79 ∷ 80 ∷ 81 ∷ 82 ∷ 83
    ∷ 84 ∷ 85 ∷ 86 ∷ 87 ∷ 88 ∷ 89 ∷ 90 ∷ 97 ∷ 98 ∷ 99 ∷ 100 ∷ 101 ∷ 102 ∷ 103 ∷ 104 ∷ 105 ∷ 106
    ∷ 107 ∷ 108 ∷ 109 ∷ 110 ∷ 111 ∷ 112 ∷ 113 ∷ 114 ∷ 115 ∷ 116 ∷ 117 ∷ 118 ∷ 119 ∷ 120 ∷ 121 ∷ 122
    ∷ 48 ∷ 49 ∷ 50 ∷ 51 ∷ 52 ∷ 53 ∷ 54 ∷ 55 ∷ 56 ∷ 57 ∷ 43 ∷ 47 ∷ []

abbrev pub equals_sign : ℕ
equals_sign = 61

abbrev within : ℕ → ℕ → ℕ → Bool
within low high c = leb low c && leb c high

-- isalnum, in the C locale.
unfoldable pub is_alnum : ℕ → Bool
is_alnum c = within 48 57 c || within 65 90 c || within 97 122 c

unfoldable pub is_base64 : ℕ → Bool
is_base64 c = is_alnum c || (c == 43) || (c == 47)

-- `base64_chars[i]`; the character at the end of a string, and 0 behind it, are never asked for.
abbrev pub char_in : List ℕ → ℕ → ℕ
char_in [] i = 0
char_in (c ∷ cs) zero = c
char_in (c ∷ cs) (suc i) = char_in cs i

unfoldable pub char_at : ℕ → ℕ
char_at i = char_in base64_chars i

-- `base64_chars.find(c)` as an unsigned char: `npos`, with all bits set, is 255.
abbrev find_in : ℕ → List ℕ → ℕ → ℕ
find_in c [] i = 255
find_in c (d ∷ cs) i = let later = find_in c cs (suc i) in if c == d then i else later

unfoldable pub find : ℕ → ℕ
find c = find_in c base64_chars 0

-- `char_array_4` from `char_array_3`, as characters.
unfoldable pub encode_3 : ℕ → ℕ → ℕ → List ℕ
encode_3 a b c =
    char_at (a / 4)
    ∷ char_at ((a % 4 * 16 + b / 16) % 2 ^ 8)
    ∷ char_at ((b % 16 * 4 + c / 64) % 2 ^ 8)
    ∷ char_at (c % 64)
    ∷ []

abbrev pub front : ℕ → List ℕ → List ℕ
front zero l = []
front (suc n) [] = []
front (suc n) (x ∷ l) = x ∷ front n l

-- The rounds of the loop, three bytes at a time; then what is left of one or two, with 0 for the
-- missing bytes and an equals sign for each.
unfoldable pub base64_encode : List ℕ → List ℕ
base64_encode [] = []
base64_encode (a ∷ []) = front 2 (encode_3 a 0 0) ++ (equals_sign ∷ equals_sign ∷ [])
base64_encode (a ∷ b ∷ []) = front 3 (encode_3 a b 0) ++ (equals_sign ∷ [])
base64_encode (a ∷ b ∷ c ∷ rest) = encode_3 a b c ++ base64_encode rest

-- `char_array_3` from `char_array_4` once the characters are looked up.
unfoldable pub decode_4 : ℕ → ℕ → ℕ → ℕ → List ℕ
decode_4 p q r s =
    (p * 4 + q % 64 / 16) % 2 ^ 8
    ∷ (q % 16 * 16 + r % 64 / 4) % 2 ^ 8
    ∷ (r % 4 * 64 + s) % 2 ^ 8
    ∷ []

-- The end: what `char_array_4` holds, with 0 for the missing characters.
unfoldable pub decode_end : List ℕ → List ℕ
decode_end [] = []
decode_end (p ∷ []) = []
decode_end (p ∷ q ∷ []) = front 1 (decode_4 (find p) (find q) (find 0) (find 0))
decode_end (p ∷ q ∷ r ∷ _) = front 2 (decode_4 (find p) (find q) (find r) (find 0))

-- `char_array_4[i++] = c`, and the round of the loop that it fills.
unfoldable pub decode_step : (List ℕ → List ℕ) → List ℕ → ℕ → List ℕ
decode_step more (p ∷ q ∷ r ∷ _) c = decode_4 (find p) (find q) (find r) (find c) ++ more []
decode_step more held c = more (held ++ (c ∷ []))

-- The loop, with what `char_array_4` holds.
unfoldable pub decode_loop : List ℕ → List ℕ → List ℕ
decode_loop held [] = decode_end held
decode_loop held (c ∷ cs) =
    let go = decode_step (λ l. decode_loop l cs) held c in
    if not (c == equals_sign) && is_base64 c then go else decode_end held

unfoldable pub base64_decode : List ℕ → List ℕ
base64_decode s = decode_loop [] s
