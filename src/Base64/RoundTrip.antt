-- ===== src/Base64/RoundTrip.antt =====
-- Decoding what has been encoded, and the length of an encoding.
use postfix_edm.Prelude.{
  ℕ, zero, suc, ◌+◌, ◌*◌, ◌/◌, ◌%◌, ◌^◌, ◌<◌, ◌≡◌, refl, sym, ap, ◌∙◌, List, [], ◌∷◌, ◌++◌, Bool,
  true, false, ◌&&◌, not, ◌==◌, arith, length, inl, inr, Bool-cases,
}
use postfix_edm.Base64.{
  char_at, find, is_base64, is_alnum, encode_3, decode_4, decode_end, decode_step, decode_loop,
  base64_encode, base64_decode, equals_sign,
}

-- The character of a value is found again, and does not stop the loop.
abbrev good : ℕ → Bool
good v = (find (char_at v) == v) && (is_base64 (char_at v) && not (char_at v == equals_sign))

all_good : ℕ → Bool
all_good zero = true
all_good (suc n) = good n && all_good n

and-left : (a b : Bool) → (a && b) ≡ true → a ≡ true
and-left true b h = refl
and-left false b h = h

and-right : (a b : Bool) → (a && b) ≡ true → b ≡ true
and-right true b h = h
and-right false b h = cc

all_good-good : (n v : ℕ) → all_good n ≡ true → v < n → good v ≡ true
unfolding all_good
all_good-good zero v h less = absurd (omega arith)
all_good-good (suc n) v h less = elim (Bool-cases (v == n)) [
  | inl e ↦ let same : n ≡ v = ground arith in ap good (sym same) ∙ and-left (good n) (all_good n) h
  | inr e ↦
      let below : v < n = ground arith in
      all_good-good n v (and-right (good n) (all_good n) h) below
]

all : all_good 64 ≡ true
unfolding all_good find char_at is_base64 is_alnum
all = refl

found : (v : ℕ) → v < 64 → find (char_at v) ≡ v
found v h =
    let g : (find (char_at v) == v) ≡ true = and-left _ _ (all_good-good 64 v all h) in ground arith

goes_on : (v : ℕ) → v < 64 → (not (char_at v == equals_sign) && is_base64 (char_at v)) ≡ true
goes_on v h =
    let g = and-right _ _ (all_good-good 64 v all h) in
    swap (is_base64 (char_at v)) (not (char_at v == equals_sign)) g
  where
    swap : (a b : Bool) → (a && b) ≡ true → (b && a) ≡ true
    swap true true h = refl
    swap true false h = h
    swap false b h = cc

steps :
    (held cs : List ℕ) (v : ℕ)
    → v < 64
    → decode_loop held (char_at v ∷ cs) ≡ decode_step (λ l. decode_loop l cs) held (char_at v)
unfolding decode_loop
steps held cs v h = rw (goes_on v h)

-- Four characters in a row are one round of the loop.
round :
    (p q r s : ℕ) (cs : List ℕ)
    → p < 64
    → q < 64
    → r < 64
    → s < 64
    → decode_loop [] (char_at p ∷ char_at q ∷ char_at r ∷ char_at s ∷ cs)
      ≡ decode_4 p q r s ++ decode_loop [] cs
round p q r s cs hp hq hr hs =
    unfold decode_step in
    steps [] _ p hp
    ∙ steps (char_at p ∷ []) _ q hq
    ∙ steps (char_at p ∷ char_at q ∷ []) _ r hr
    ∙ steps (char_at p ∷ char_at q ∷ char_at r ∷ []) cs s hs
    ∙ (λ i.
        decode_4 (found p hp i) (found q hq i) (found r hr i) (found s hs i) ++ decode_loop [] cs)

-- An equals sign ends the loop.
ends : (held cs : List ℕ) → decode_loop held (equals_sign ∷ cs) ≡ decode_end held
unfolding decode_loop
ends held cs = refl

-- The bits of three bytes go into four values and come back.
bits :
    (a b c : ℕ)
    → a < 256
    → b < 256
    → c < 256
    → decode_4 (a / 4) ((a % 4 * 16 + b / 16) % 2 ^ 8) ((b % 16 * 4 + c / 64) % 2 ^ 8) (c % 64)
      ≡ a ∷ b ∷ c ∷ []
unfolding decode_4
bits a b c ha hb hc = λ i. first i ∷ second i ∷ third i ∷ []
  where
    q : ℕ
    q = (a % 4 * 16 + b / 16) % 2 ^ 8

    r : ℕ
    r = (b % 16 * 4 + c / 64) % 2 ^ 8

    first : (a / 4 * 4 + q % 64 / 16) % 2 ^ 8 ≡ a
    first = omega arith

    second : (q % 16 * 16 + r % 64 / 4) % 2 ^ 8 ≡ b
    second = omega arith

    third : (r % 4 * 64 + c % 64) % 2 ^ 8 ≡ c
    third = omega arith

-- The end of an encoding, with one byte or two.
last_one :
    (a q : ℕ)
    → a < 256
    → q ≡ a % 4 * 16
    → decode_loop [] (char_at (a / 4) ∷ char_at q ∷ equals_sign ∷ equals_sign ∷ []) ≡ a ∷ []
last_one a q ha e =
    unfold decode_step decode_end decode_4 in
    steps [] _ (a / 4) hp
    ∙ steps (char_at (a / 4) ∷ []) _ q hq
    ∙ ends (char_at (a / 4) ∷ char_at q ∷ []) _
    ∙ (λ i. (found (a / 4) hp i * 4 + found q hq i % 64 / 16) % 2 ^ 8 ∷ [])
    ∙ ap (λ (x : ℕ). x ∷ []) back
  where
    hp : a / 4 < 64
    hp = omega arith

    hq : q < 64
    hq = omega arith

    back : (a / 4 * 4 + q % 64 / 16) % 2 ^ 8 ≡ a
    back = omega arith

last_two :
    (a b q r : ℕ)
    → a < 256
    → b < 256
    → q ≡ a % 4 * 16 + b / 16
    → r ≡ b % 16 * 4
    → decode_loop [] (char_at (a / 4) ∷ char_at q ∷ char_at r ∷ equals_sign ∷ []) ≡ a ∷ b ∷ []
last_two a b q r ha hb e f =
    unfold decode_step decode_end decode_4 in
    steps [] _ (a / 4) hp
    ∙ steps (char_at (a / 4) ∷ []) _ q hq
    ∙ steps (char_at (a / 4) ∷ char_at q ∷ []) _ r hr
    ∙ ends (char_at (a / 4) ∷ char_at q ∷ char_at r ∷ []) _
    ∙ (λ i.
        (found (a / 4) hp i * 4 + found q hq i % 64 / 16) % 2 ^ 8
        ∷ (found q hq i % 16 * 16 + found r hr i % 64 / 4) % 2 ^ 8
        ∷ [])
    ∙ (λ i. first i ∷ second i ∷ [])
  where
    hp : a / 4 < 64
    hp = omega arith

    hq : q < 64
    hq = omega arith

    hr : r < 64
    hr = omega arith

    first : (a / 4 * 4 + q % 64 / 16) % 2 ^ 8 ≡ a
    first = omega arith

    second : (q % 16 * 16 + r % 64 / 4) % 2 ^ 8 ≡ b
    second = omega arith

abbrev pub AreBytes : List ℕ → Type 0
AreBytes [] = Unit
AreBytes (a ∷ s) = (a < 256) × AreBytes s

-- What is encoded is decoded to the same bytes, whatever their number.
pub base64_decode-base64_encode : (s : List ℕ) → AreBytes s → base64_decode (base64_encode s) ≡ s
unfolding base64_decode base64_encode encode_3
base64_decode-base64_encode [] v = unfold decode_loop decode_end in refl
base64_decode-base64_encode (a ∷ []) v = last_one a _ v.0 (omega arith)
base64_decode-base64_encode (a ∷ b ∷ []) v = last_two a b _ _ v.0 v.1.0 (omega arith) (omega arith)
base64_decode-base64_encode (a ∷ b ∷ c ∷ rest) v =
    round (a / 4) _ _ (c % 64) (base64_encode rest) (omega arith) (omega arith) (omega arith)
      (omega arith)
    ∙ (λ i. bits a b c v.0 v.1.0 v.1.1.0 i ++ decode_loop [] (base64_encode rest))
    ∙ ap (λ l. a ∷ b ∷ c ∷ l) (base64_decode-base64_encode rest v.1.1.1)

-- An encoding has four characters for every three bytes, and for the one or two that are left.
pub length-base64_encode : (s : List ℕ) → length (base64_encode s) ≡ 4 * ((length s + 2) / 3)
unfolding base64_encode encode_3
length-base64_encode [] = refl
length-base64_encode (a ∷ []) = refl
length-base64_encode (a ∷ b ∷ []) = refl
length-base64_encode (a ∷ b ∷ c ∷ rest) = omega (arith, length-base64_encode rest)
