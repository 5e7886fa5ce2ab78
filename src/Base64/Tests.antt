-- ===== src/Base64/Tests.antt =====
-- Runs of base64, and its theorems at concrete inputs.
use postfix_edm.Prelude.{ℕ, ◌≡◌, refl, List, [], ◌∷◌, arith}
use postfix_edm.Base64.{base64_encode, base64_decode}
use postfix_edm.Base64.RoundTrip.{AreBytes, base64_decode-base64_encode}

abbrev bytes : List ℕ
bytes = 77 ∷ 97 ∷ 110 ∷ 255 ∷ 0 ∷ []

bytes-AreBytes : AreBytes bytes
bytes-AreBytes = omega arith

-- "TWFu/wA="
encodes : base64_encode bytes ≡ 84 ∷ 87 ∷ 70 ∷ 117 ∷ 47 ∷ 119 ∷ 65 ∷ 61 ∷ []
unfolding base64_encode postfix_edm.Base64.encode_3 postfix_edm.Base64.char_at
encodes = refl

base64_decode-base64_encode_example : base64_decode (base64_encode bytes) ≡ bytes
base64_decode-base64_encode_example = base64_decode-base64_encode bytes bytes-AreBytes
