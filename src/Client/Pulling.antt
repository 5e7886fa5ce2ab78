-- ===== src/Client/Pulling.antt =====
-- c++/client/worker.cpp, `pullSentInfoFromMysql` and the round of `OnChildRun` that has mails to send: from
-- the rows of the database to the texts that sendmail is given. What the database answers is given.
pub mod Mails
pub mod Rounds
use postfix_edm.Prelude.{
  ℕ, zero, suc, ◌+◌, ◌%◌, ◌^◌, List, [], ◌∷◌, ◌++◌, map, Option, none, some, Bool, true, false,
  ◌==◌, leb, ◌&&◌, if◌then◌else◌, length,
}
use postfix_edm.Prelude.Memory.{◌>>=◌}
use postfix_edm.Client.Mail.{MailInfo, codes, send}
use postfix_edm.Mysql.Table.{Heap, mysql_fill_data, free_result_data}
use postfix_edm.Mysql.Walk.{on_columns, on_rows}

-- `mail_info_t` with what strdup made, or NULL.
pub record PulledMail : Type 0 where
  pub to : Option (List ℕ)
  pub cc : Option (List ℕ)
  pub subject : Option (List ℕ)
  pub content : Option (List ℕ)
  pub sender : Option (List ℕ)
  pub from : Option (List ℕ)

abbrev pub empty_mail : PulledMail
empty_mail = record {
  to = none;
  cc = none;
  subject = none;
  content = none;
  sender = none;
  from = none;
}

abbrev pub to_lower : ℕ → ℕ
to_lower c = if leb 65 c && leb c 90 then c + 32 else c

-- strncasecmp on as many characters as the second name has with its 0.
abbrev pub same_name : List ℕ → List ℕ → Bool
same_name [] [] = true
same_name [] (d ∷ t) = false
same_name (c ∷ s) [] = false
same_name (c ∷ s) (d ∷ t) = if to_lower c == to_lower d then same_name s t else false

pub data Slot : Type 0 where
  slot_to slot_cc slot_subject slot_content slot_sender slot_from slot_none : Slot

-- The tests on the name, in the order of the code.
unfoldable pub slot_of : List ℕ → Slot
slot_of name =
    if same_name name (codes "to")
    then slot_to
    else if same_name name (codes "cc")
    then slot_cc
    else if same_name name (codes "subject")
    then slot_subject
    else if same_name name (codes "content")
    then slot_content
    else if same_name name (codes "sender")
    then slot_sender
    else if same_name name (codes "from")
    then slot_from
    else slot_none

abbrev pub put_slot : Slot → List ℕ → PulledMail → PulledMail
put_slot slot_to value mail = record mail { to = some value }
put_slot slot_cc value mail = record mail { cc = some value }
put_slot slot_subject value mail = record mail { subject = some value }
put_slot slot_content value mail = record mail { content = some value }
put_slot slot_sender value mail = record mail { sender = some value }
put_slot slot_from value mail = record mail { from = some value }
put_slot slot_none value mail = mail

-- The body of the loop on the columns: a field whose value is NULL passes all tests by.
abbrev pub put_column : ℕ → List ℕ → Option (List ℕ) → PulledMail → Option PulledMail
put_column j name none mail = some mail
put_column j name (some value) mail = some (put_slot (slot_of name) value mail)

-- The mails of the result are pushed onto the queue, and the table is released.
unfoldable pub pull_sent_info_from_mysql :
    List (List ℕ)
    → List (List (Option (List ℕ)))
    → List PulledMail
    → Heap
    → Option (List PulledMail × Heap)
pull_sent_info_from_mysql names rows queue h = do
  filled ← mysql_fill_data names rows h
  queue ←
      on_rows
        (λ head queue.
          on_columns put_column (filled.0).columns 0 head filled.1 empty_mail
          >>= (λ mail. some (queue ++ (mail ∷ []))))
        (filled.0).rows 0 (filled.0).data_place filled.1 queue
  h ← free_result_data filled.0 filled.1
  some (queue, h)

-- What fprintf has for %s of a pointer: `null_text` is what it prints for NULL, `none` where it prints nothing
-- that is defined.
abbrev pub or_null : Option (List ℕ) → Option (List ℕ) → Option (List ℕ)
or_null null_text none = null_text
or_null null_text (some value) = some value

-- The mail as `send` reads it. A NULL that is given to strlen is `none`: only `cc` is looked at first.
abbrev pub as_mail : Bool → Option (List ℕ) → PulledMail → Option MailInfo
as_mail is_convert null_text mail = do
  to ← or_null null_text mail.to
  subject ← mail.subject
  sender ← mail.sender
  from ← or_null null_text mail.from
  content ← if is_convert then mail.content else or_null null_text mail.content
  some (record {
    to = to;
    cc = mail.cc;
    subject = subject;
    content = content;
    sender = sender;
    from = from;
  })

-- `sent` has what was given to sendmail, mail by mail; `tried` counts the calls of `send`.
pub record ChildProcess : Type 0 where
  pub heap : Heap
  pub send_mail_queue : List PulledMail
  pub have_push_num : ℕ
  pub tried : ℕ
  pub sent : List (List ℕ)

-- The converter of character sets, what fprintf prints for NULL, and which calls of popen succeed.
module _ (is_convert : Bool) (convert : List ℕ → List ℕ) (null_text : Option (List ℕ))
    (opened : ℕ → Bool) where
  -- The call number `k` of `send`: where popen fails, the mail is not read and nothing is given to sendmail.
  abbrev pub send_pulled : ℕ → PulledMail → Option (List (List ℕ))
  send_pulled k mail =
      if opened k
      then (as_mail is_convert null_text mail
          >>= (λ info. some ((send is_convert convert true info).1 ∷ [])))
      else some []

  -- The loop that sends while there is a mail in the queue; the result of `send` is not looked at.
  unfoldable pub send_queue : List PulledMail → ChildProcess → Option ChildProcess
  send_queue [] s = some (record s { send_mail_queue = [] })
  send_queue (mail ∷ queue) s = do
    texts ← send_pulled s.tried mail
    send_queue queue
        (record s { send_mail_queue = queue; tried = suc s.tried; sent = s.sent ++ texts })

  -- A round of a child that may start, at these rows.
  unfoldable pub child_round :
      List (List ℕ) → List (List (Option (List ℕ))) → ChildProcess → Option ChildProcess
  child_round names rows s = do
    pulled ← pull_sent_info_from_mysql names rows s.send_mail_queue s.heap
    send_queue pulled.0 (record s {
      heap = pulled.1;
      send_mail_queue = pulled.0;
      have_push_num = (s.have_push_num + length pulled.0) % 2 ^ 64;
    })

  -- Round after round, with what the database answers in each.
  unfoldable pub child_rounds :
      List (List ℕ) → List (List (List (Option (List ℕ)))) → ChildProcess → Option ChildProcess
  child_rounds names [] s = some s
  child_rounds names (rows ∷ answers) s = child_round names rows s >>= child_rounds names answers
