-- ===== src/Client/Pulling/Rounds.antt =====
-- The mails of a child, from the rows of the database to the texts for sendmail.
use postfix_edm.Prelude.{
  ℕ, suc, ◌+◌, ◌%◌, ◌^◌, ◌<◌, ◌≡◌, refl, ap, ◌∙◌, List, [], ◌∷◌, ◌++◌, map, Option, none, some,
  if◌then◌else◌, Bool, true, false, ◌||◌, Option-cases, Bool-cases, inl, inr, length, length-append,
  append_assoc, append-nil, arith,
}
use postfix_edm.Prelude.Memory.{◌>>=◌}
use postfix_edm.Client.Mail.{MailInfo, mail_text, send}
use postfix_edm.Mysql.Table.{Cell}
use postfix_edm.Mysql.Table.Column.{IsFresh}
use postfix_edm.Mysql.Table.Rows.{AreRows}
use postfix_edm.Client.Pulling.{
  PulledMail, pull_sent_info_from_mysql, ChildProcess, or_null, as_mail, send_pulled, send_queue,
  child_round, child_rounds,
}
use postfix_edm.Client.Pulling.Mails.{mail_of, pull_lem}

-- Every answer has fewer than 2^31 rows, each with a value for each column.
abbrev pub AreAnswers : List (List ℕ) → List (List (List (Option (List ℕ)))) → Type 0
AreAnswers names [] = Unit
AreAnswers names (rows ∷ answers) =
    AreRows names rows × (length rows < 2 ^ 31) × AreAnswers names answers

-- The mails of all the answers, in order.
unfoldable pub mails_of : List (List ℕ) → List (List (List (Option (List ℕ)))) → List PulledMail
mails_of names [] = []
mails_of names (rows ∷ answers) = map (mail_of names) rows ++ mails_of names answers

abbrev is_unset : Option (List ℕ) → Bool
is_unset none = true
is_unset (some v) = false

abbrev value_of : Option (List ℕ) → List ℕ
value_of none = []
value_of (some v) = v

-- A mail with a column that must not be NULL or empty.
abbrev pub lacks : PulledMail → Bool
lacks mail =
    is_unset mail.to
    || (is_unset mail.subject
        || (is_unset mail.sender || (is_unset mail.from || is_unset mail.content)))

abbrev info_of : PulledMail → MailInfo
info_of mail = record {
  to = value_of mail.to;
  cc = mail.cc;
  subject = value_of mail.subject;
  content = value_of mail.content;
  sender = value_of mail.sender;
  from = value_of mail.from;
}

-- The mail with what is printed for NULL, where a pointer is only printed.
abbrev as_printed : Bool → Option (List ℕ) → PulledMail → PulledMail
as_printed is_convert null_text mail = record mail {
  to = or_null null_text mail.to;
  from = or_null null_text mail.from;
  content = if is_convert then mail.content else or_null null_text mail.content;
}

info_if_whole : PulledMail → Option MailInfo
info_if_whole mail = do
  to ← mail.to
  subject ← mail.subject
  sender ← mail.sender
  from ← mail.from
  content ← mail.content
  some (record {
    to = to;
    cc = mail.cc;
    subject = subject;
    content = content;
    sender = sender;
    from = from;
  })

info_if_whole_lem :
    (mail : PulledMail) → info_if_whole mail ≡ (if lacks mail then none else some (info_of mail))
unfolding info_if_whole
info_if_whole_lem mail = parts mail.to mail.cc mail.subject mail.content mail.sender mail.from
  where
    parts :
        (to cc subject content sender from : Option (List ℕ))
        → let mail : PulledMail = record {
          to = to;
          cc = cc;
          subject = subject;
          content = content;
          sender = sender;
          from = from;
        } in
          info_if_whole mail ≡ (if lacks mail then none else some (info_of mail))
    parts none cc subject content sender from = refl
    parts (some a) cc none content sender from = refl
    parts (some a) cc (some b) content none from = refl
    parts (some a) cc (some b) content (some c) none = refl
    parts (some a) cc (some b) none (some c) (some d) = refl
    parts (some a) cc (some b) (some e) (some c) (some d) = refl

as_mail_lem :
    (is_convert : Bool) (null_text : Option (List ℕ)) (mail : PulledMail)
    → let printed = as_printed is_convert null_text mail in
      as_mail is_convert null_text mail ≡ (if lacks printed then none else some (info_of printed))
unfolding info_if_whole
as_mail_lem is_convert null_text mail = info_if_whole_lem (as_printed is_convert null_text mail)

-- What is looked at after the rounds.
abbrev pub outcome : ChildProcess → List (List ℕ) × ℕ × List PulledMail × (ℕ → Option Cell)
outcome s = (s.sent, s.have_push_num, s.send_mail_queue, s.heap.cells)

module _ (is_convert : Bool) (convert : List ℕ → List ℕ) (null_text : Option (List ℕ))
    (opened : ℕ → Bool) where
  -- What sendmail is given for a mail, or none where the mail is read and lacks a value.
  unfoldable pub text_given : ℕ → PulledMail → Option (List (List ℕ))
  text_given k mail =
      let printed = as_printed is_convert null_text mail in
      if opened k
      then if lacks printed
        then none
        else some (mail_text is_convert convert (info_of printed) ∷ [])
      else some []

  unfoldable pub texts_given : ℕ → List PulledMail → Option (List (List ℕ))
  texts_given k [] = some []
  texts_given k (mail ∷ mails) = do
    now ← text_given k mail
    later ← texts_given (suc k) mails
    some (now ++ later)

  send_pulled_lem :
      (k : ℕ) (mail : PulledMail)
      → send_pulled is_convert convert null_text opened k mail ≡ text_given k mail
  unfolding text_given send
  send_pulled_lem k mail =
      let reads = as_mail_lem is_convert null_text mail in
      elim (Bool-cases (lacks (as_printed is_convert null_text mail))) [
        | inl e ↦ rw (reads, e) refl
        | inr e ↦ rw (reads, e) refl
      ]

  texts_given-append :
      (k : ℕ) (mails more : List PulledMail)
      → texts_given k (mails ++ more) ≡ (
          texts_given k mails
          >>= (λ now. texts_given (k + length mails) more >>= (λ later. some (now ++ later))))
  unfolding texts_given
  texts_given-append k [] more =
      let n : k + 0 ≡ k = omega arith in
      elim (Option-cases (texts_given k more)) [
        | inl e ↦ rw (n, e) refl
        | inr (later, e) ↦ rw (n, e) refl
      ]
  texts_given-append k (mail ∷ mails) more =
      let n : suc k + length mails ≡ k + suc (length mails) = omega arith in
      let ih =
        texts_given-append (suc k) mails more
        ∙ ap
            (λ x.
              texts_given (suc k) mails
              >>= (λ now. texts_given x more >>= (λ later. some (now ++ later))))
            n in
      elim (Option-cases (text_given k mail)) [
        | inl e ↦ rw e refl
        | inr (now, e) ↦ elim (Option-cases (texts_given (suc k) mails)) [
          | inl f ↦ rw (e, ih, f) refl
          | inr (mid, f) ↦ elim (Option-cases (texts_given (k + suc (length mails)) more)) [
            | inl g ↦ rw (e, ih, f, g) refl
            | inr (later, g) ↦ rw (e, ih, f, g, append_assoc now mid later) refl
          ]
        ]
      ]

  send_queue_lem :
      (queue : List PulledMail) (s : ChildProcess)
      → send_queue is_convert convert null_text opened queue s ≡ (
          texts_given s.tried queue >>= (λ texts. some (record s {
            send_mail_queue = [];
            tried = s.tried + length queue;
            sent = s.sent ++ texts;
          })))
  unfolding send_queue texts_given
  send_queue_lem [] s =
      let n : s.tried + 0 ≡ s.tried = omega arith in rw (n, append-nil s.sent) refl
  send_queue_lem (mail ∷ queue) s =
      let n : suc s.tried + length queue ≡ s.tried + suc (length queue) = omega arith in
      elim (Option-cases (text_given s.tried mail)) [
        | inl e ↦ rw (send_pulled_lem s.tried mail, e) refl
        | inr (now, e) ↦
            let ih =
              send_queue_lem queue
                (record s { send_mail_queue = queue; tried = suc s.tried; sent = s.sent ++ now }) in
            elim (Option-cases (texts_given (suc s.tried) queue)) [
              | inl f ↦ rw (send_pulled_lem s.tried mail, e, ih, f) refl
              | inr (later, f) ↦
                  rw (send_pulled_lem s.tried mail, e, ih, f, append_assoc s.sent now later, n) refl
            ]
      ]

  pub child_rounds_lem :
      (names : List (List ℕ)) (answers : List (List (List (Option (List ℕ))))) (s : ChildProcess)
      → AreAnswers names answers
      → IsFresh s.heap
      → s.send_mail_queue ≡ []
      → s.have_push_num < 2 ^ 64
      → length names < 2 ^ 16
      → (child_rounds is_convert convert null_text opened names answers s
          >>= (λ t. some (outcome t)))
        ≡ (texts_given s.tried (mails_of names answers) >>= (λ texts. some (
          s.sent ++ texts,
          (s.have_push_num + length (mails_of names answers)) % 2 ^ 64,
          [],
          s.heap.cells,
        )))
  unfolding child_rounds child_round mails_of texts_given
  child_rounds_lem names [] s right free empty small narrow =
      let n : (s.have_push_num + 0) % 2 ^ 64 ≡ s.have_push_num = omega arith in
      rw (empty, append-nil s.sent, n) refl
  child_rounds_lem names (rows ∷ answers) s right free empty small narrow =
      let mails = map (mail_of names) rows in
      let (u, pulls, same, next) =
        pull_lem names rows s.send_mail_queue s.heap right.0 free right.1 narrow in
      let pulled : pull_sent_info_from_mysql names rows s.send_mail_queue s.heap ≡ some (mails, u) =
        pulls ∙ ap (λ q. some (q ++ mails, u)) empty in
      let sends = send_queue_lem mails (record s {
        heap = u;
        send_mail_queue = mails;
        have_push_num = (s.have_push_num + length mails) % 2 ^ 64;
      }) in
      let split = texts_given-append s.tried mails (mails_of names answers) in
      elim (Option-cases (texts_given s.tried mails)) [
        | inl e ↦ rw (pulled, sends, split, e) refl
        | inr (now, e) ↦
            let s1 : ChildProcess = record {
              heap = u;
              send_mail_queue = [];
              have_push_num = (s.have_push_num + length mails) % 2 ^ 64;
              tried = s.tried + length mails;
              sent = s.sent ++ now;
            } in
            let rest = child_rounds_lem names answers s1 right.2 next refl (omega arith) narrow in
            let n : ((s.have_push_num + length mails) % 2 ^ 64 + length (mails_of names answers))
                  % 2 ^ 64
                ≡ (s.have_push_num + length (mails ++ mails_of names answers)) % 2 ^ 64 =
              omega (arith, length-append mails (mails_of names answers)) in
            elim (Option-cases (texts_given (s.tried + length mails) (mails_of names answers))) [
              | inl f ↦ rw (pulled, sends, split, e, rest, f) refl
              | inr (later, f) ↦
                  rw (pulled, sends, split, e, rest, f, n, same, append_assoc s.sent now later) refl
            ]
      ]
