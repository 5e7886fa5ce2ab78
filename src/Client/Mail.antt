-- ===== src/Client/Mail.antt =====
-- c++/client/sendMail.h and sendMail.cpp: the text that is handed to sendmail. Whether popen succeeds and
-- the converter of character sets are arguments.
use Prim.Native.Char.{code}
use Prim.Native.String.{String}
use postfix_edm.Prelude.{ℕ, List, [], ◌∷◌, ◌++◌, Option, none, some, Bool, if◌then◌else◌}
use postfix_edm.Prelude.Int.{ℤ, pos, negsuc}
use postfix_edm.Base64.{base64_encode}

-- The bytes of a text in ASCII.
abbrev pub codes : String → List ℕ
codes String.[] = []
codes (String.◌∷◌ c s) = code c ∷ codes s

-- `mail_info_t`; a null pointer is `none`.
pub record MailInfo : Type 0 where
  pub to : List ℕ
  pub cc : Option (List ℕ)
  pub subject : List ℕ
  pub content : List ℕ
  pub sender : List ℕ
  pub from : List ℕ

abbrev pub newline : ℕ
newline = 10

-- A text in a header, with its encoding.
unfoldable pub encoded_word : List ℕ → List ℕ
encoded_word s = codes "=?UTF-8?B?" ++ (base64_encode s ++ codes "?=")

-- The lines that `send` prints, each with what follows it.
unfoldable pub to_lines : MailInfo → List ℕ → List ℕ
to_lines mail rest =
    codes "To: "
    ++ (mail.to
        ++ (newline
            ∷ (elim mail.cc [ none ↦ rest | some cc ↦ codes "Cc: " ++ (cc ++ (newline ∷ rest)) ])))

unfoldable pub subject_line : MailInfo → List ℕ → List ℕ
subject_line mail rest = codes "Subject: " ++ (encoded_word mail.subject ++ (newline ∷ rest))

unfoldable pub from_line : MailInfo → List ℕ → List ℕ
from_line mail rest =
    codes "From: "
    ++ (encoded_word mail.sender ++ (codes "<" ++ (mail.from ++ (codes ">" ++ (newline ∷ rest)))))

unfoldable pub type_lines : List ℕ → List ℕ
type_lines rest =
    codes "Content-type: text/html; charset=gb2312"
    ++ (newline ∷ (codes "Author: lijianwei" ++ (newline ∷ rest)))

module _ (is_convert : Bool) (convert : List ℕ → List ℕ) where
  unfoldable pub body_lines : MailInfo → List ℕ
  body_lines mail =
      newline ∷ ((if is_convert then convert mail.content else mail.content) ++ (newline ∷ []))

  unfoldable pub mail_text : MailInfo → List ℕ
  mail_text mail = to_lines mail (subject_line mail (from_line mail (type_lines (body_lines mail))))

  -- `send`: the result, and what sendmail is given.
  unfoldable pub send : Bool → MailInfo → ℤ × List ℕ
  send opened mail = if opened then (pos 0, mail_text mail) else (negsuc 0, [])
