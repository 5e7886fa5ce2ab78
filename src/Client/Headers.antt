-- ===== src/Client/Headers.antt =====
-- What a reader of the mail finds in its headers.
use postfix_edm.Prelude.{
  ℕ, zero, suc, ◌/◌, Option-cases, ◌≡◌, refl, sym, ap, ◌∙◌, List, [], ◌∷◌, ◌++◌, Option, none, some,
  Bool, true, false, ◌==◌, if◌then◌else◌, arith, drop, inl, inr, Bool-cases, append_assoc,
}
use postfix_edm.Prelude.Text.{has, has-append}
use postfix_edm.Base64.{
  base64_encode, base64_decode, encode_3, char_at, char_in, base64_chars, equals_sign,
}
use postfix_edm.Base64.RoundTrip.{AreBytes, base64_decode-base64_encode}
use postfix_edm.Client.Mail.{
  MailInfo, codes, newline, encoded_word, to_lines, subject_line, from_line, type_lines, body_lines,
  mail_text,
}

-- What stands in front of a character, and what stands behind it.
abbrev pub before : ℕ → List ℕ → List ℕ
before c [] = []
before c (d ∷ s) = if d == c then [] else d ∷ before c s

abbrev pub behind : ℕ → List ℕ → List ℕ
behind c [] = []
behind c (d ∷ s) = if d == c then s else behind c s

has_tail : (c d : ℕ) (l : List ℕ) → has c (d ∷ l) ≡ false → ((d == c) ≡ false) × (has c l ≡ false)
has_tail c d l e = elim (Bool-cases (d == c)) [
  | inl same ↦ let here : has c (d ∷ l) ≡ true = rw same refl in absurd (cc)
  | inr other ↦ (other, sym (rw other refl) ∙ e)
]

before-append : (c : ℕ) (l r : List ℕ) → has c l ≡ false → before c (l ++ (c ∷ r)) ≡ l
before-append c [] r e = ground arith
before-append c (d ∷ l) r e =
    let parts = has_tail c d l e in rw (parts.0, before-append c l r parts.1) refl

behind-append : (c : ℕ) (l r : List ℕ) → has c l ≡ false → behind c (l ++ (c ∷ r)) ≡ r
behind-append c [] r e = ground arith
behind-append c (d ∷ l) r e =
    let parts = has_tail c d l e in rw (parts.0, behind-append c l r parts.1) refl

-- The question mark, which ends an encoded text.
abbrev pub question : ℕ
question = 63

-- A character that is none of base64, and not the 0 behind its table.
abbrev IsForeign : ℕ → Type 0
IsForeign c = (has c base64_chars ≡ false) × (((0 == c) ≡ false) × ((equals_sign == c) ≡ false))

char_in-ne :
    (c : ℕ) (cs : List ℕ) (i : ℕ)
    → (0 == c) ≡ false
    → has c cs ≡ false
    → (char_in cs i == c) ≡ false
char_in-ne c [] i z e = z
char_in-ne c (d ∷ cs) zero z e = (has_tail c d cs e).0
char_in-ne c (d ∷ cs) (suc i) z e = char_in-ne c cs i z (has_tail c d cs e).1

char_at-ne : (c i : ℕ) → IsForeign c → (char_at i == c) ≡ false
unfolding char_at
char_at-ne c i (f, (z, q)) = char_in-ne c base64_chars i z f

base64_encode-ne : (c : ℕ) (s : List ℕ) → IsForeign c → has c (base64_encode s) ≡ false
unfolding base64_encode encode_3
base64_encode-ne c [] f = refl
base64_encode-ne c (x ∷ []) f = rw (char_at-ne c (x / 4) f, char_at-ne c _ f, f.1.1) refl
base64_encode-ne c (x ∷ y ∷ []) f =
    rw (char_at-ne c (x / 4) f, char_at-ne c _ f, char_at-ne c _ f, f.1.1) refl
base64_encode-ne c (x ∷ y ∷ z ∷ rest) f =
    rw (char_at-ne c (x / 4) f, char_at-ne c _ f, char_at-ne c _ f, char_at-ne c _ f)
      (base64_encode-ne c rest f)

-- The text that an encoded one stands for: what stands between the first ten characters and the next
-- question mark, decoded.
abbrev pub word_text : List ℕ → List ℕ
word_text w = base64_decode (before question (drop 10 w))

word_text-encoded_word : (s r : List ℕ) → AreBytes s → word_text (encoded_word s ++ r) ≡ s
unfolding encoded_word
word_text-encoded_word s r bytes = rw (append_assoc (base64_encode s) (codes "?=") r) (
    ap base64_decode (
      before-append question (base64_encode s) (61 ∷ r)
        (base64_encode-ne question s (refl, (refl, refl))))
    ∙ base64_decode-base64_encode s bytes)

has_both : (c : ℕ) (l r : List ℕ) → has c l ≡ false → has c r ≡ false → has c (l ++ r) ≡ false
has_both c l r e f = has-append c l r ∙ rw e f

encoded_word-newline : (s : List ℕ) → has newline (encoded_word s) ≡ false
unfolding encoded_word
encoded_word-newline s =
    has_both newline (base64_encode s) (codes "?=")
      (base64_encode-ne newline s (refl, (refl, refl))) refl

abbrev pub skip_lines : ℕ → List ℕ → List ℕ
skip_lines zero s = s
skip_lines (suc n) s = skip_lines n (behind newline s)

-- How many lines stand in front of the subject.
abbrev pub lines_before : Option (List ℕ) → ℕ
lines_before none = 1
lines_before (some cc) = 2

-- The addresses hold no end of a line.
abbrev pub IsOnOneLine : MailInfo → Type 0
IsOnOneLine mail =
    (has newline mail.to ≡ false) × ((cc : List ℕ) → mail.cc ≡ some cc → has newline cc ≡ false)

behind_to :
    (mail : MailInfo) (rest : List ℕ)
    → IsOnOneLine mail
    → skip_lines (lines_before mail.cc) (to_lines mail rest) ≡ rest
unfolding to_lines
behind_to mail rest (to, copies) = elim (Option-cases mail.cc) [
  | inl e ↦ rw e (behind-append newline mail.to rest to)
  | inr (cc, e) ↦ rw e (
      ap (behind newline) (behind-append newline mail.to _ to)
      ∙ behind-append newline cc rest (copies cc e))
]

-- Where the addresses hold no end of a line, a reader that skips their lines finds the subject and, on
-- the next line, the name of the sender, as they were given, whatever bytes they are.
pub mail_text-headers :
    (is_convert : Bool) (convert : List ℕ → List ℕ) (mail : MailInfo)
    → IsOnOneLine mail
    → AreBytes mail.subject
    → AreBytes mail.sender
    → (word_text (drop 9 (skip_lines (lines_before mail.cc) (mail_text is_convert convert mail)))
        ≡ mail.subject)
      × (word_text (
            drop 6 (
              behind newline
                (skip_lines (lines_before mail.cc) (mail_text is_convert convert mail))))
          ≡ mail.sender)
unfolding mail_text subject_line from_line
mail_text-headers is_convert convert mail lines subject sender =
    let at : skip_lines (lines_before mail.cc) (mail_text is_convert convert mail) ≡ _ =
      behind_to mail
        (subject_line mail (from_line mail (type_lines (body_lines is_convert convert mail))))
        lines in
    (
      ap (λ t. word_text (drop 9 t)) at ∙ word_text-encoded_word mail.subject _ subject,
      ap (λ t. word_text (drop 6 (behind newline t))) at
          ∙ ap (λ t. word_text (drop 6 t))
              (behind-append newline (encoded_word mail.subject) _
                (encoded_word-newline mail.subject))
          ∙ word_text-encoded_word mail.sender _ sender,
    )
