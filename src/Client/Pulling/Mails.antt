-- ===== src/Client/Pulling/Mails.antt =====
-- The mails that the rows of the database stand for.
use postfix_edm.Prelude.{
  ℕ, suc, ◌^◌, ◌<◌, ◌≡◌, refl, sym, ap, ◌∙◌, List, [], ◌∷◌, ◌++◌, map, Option, none, some, ◌==◌,
  if◌then◌else◌, length, append_assoc, append-nil,
}
use postfix_edm.Prelude.Memory.{◌>>=◌}
use postfix_edm.Mysql.Table.{Heap}
use postfix_edm.Mysql.Table.Column.{Fields, IsFresh}
use postfix_edm.Mysql.Table.Rows.{AreRows}
use postfix_edm.Mysql.Table.Release.{released}
use postfix_edm.Mysql.Walk.{on_columns, on_rows}
use postfix_edm.Mysql.Walk.Found.{texts, with_fields, with_rows, walk_lem}
use postfix_edm.Client.Pulling.{
  PulledMail, empty_mail, Slot, slot_to, slot_cc, slot_subject, slot_content, slot_sender,
  slot_from, slot_none, slot_of, put_slot, put_column, pull_sent_info_from_mysql,
}

abbrev place_of : Slot → ℕ
place_of slot_to = 0
place_of slot_cc = 1
place_of slot_subject = 2
place_of slot_content = 3
place_of slot_sender = 4
place_of slot_from = 5
place_of slot_none = 6

-- The last value that is not NULL among the columns that go to a slot, or else `old`.
abbrev pub last_value : Slot → Fields → Option (List ℕ) → Option (List ℕ)
last_value slot [] old = old
last_value slot ((name, none) ∷ fields) old = last_value slot fields old
last_value slot ((name, some value) ∷ fields) old =
    last_value slot fields (if place_of (slot_of name) == place_of slot then some value else old)

abbrev with_values : Fields → PulledMail → PulledMail
with_values fields mail = record {
  to = last_value slot_to fields mail.to;
  cc = last_value slot_cc fields mail.cc;
  subject = last_value slot_subject fields mail.subject;
  content = last_value slot_content fields mail.content;
  sender = last_value slot_sender fields mail.sender;
  from = last_value slot_from fields mail.from;
}

-- The mail that a row stands for.
unfoldable pub mail_of : List (List ℕ) → List (Option (List ℕ)) → PulledMail
mail_of names row = with_values (texts names row) empty_mail

abbrev after_slot : Slot → Slot → List ℕ → Option (List ℕ) → Option (List ℕ)
after_slot found slot value old = if place_of found == place_of slot then some value else old

with_values-put_slot :
    (found : Slot) (value : List ℕ) (fields : Fields) (mail : PulledMail)
    → with_values fields (put_slot found value mail) ≡ (record {
      to = last_value slot_to fields (after_slot found slot_to value mail.to);
      cc = last_value slot_cc fields (after_slot found slot_cc value mail.cc);
      subject = last_value slot_subject fields (after_slot found slot_subject value mail.subject);
      content = last_value slot_content fields (after_slot found slot_content value mail.content);
      sender = last_value slot_sender fields (after_slot found slot_sender value mail.sender);
      from = last_value slot_from fields (after_slot found slot_from value mail.from);
    })
with_values-put_slot slot_to value fields mail = refl
with_values-put_slot slot_cc value fields mail = refl
with_values-put_slot slot_subject value fields mail = refl
with_values-put_slot slot_content value fields mail = refl
with_values-put_slot slot_sender value fields mail = refl
with_values-put_slot slot_from value fields mail = refl
with_values-put_slot slot_none value fields mail = refl

with_fields-put_column :
    (fields : Fields) (j : ℕ) (mail : PulledMail)
    → with_fields put_column j fields mail ≡ some (with_values fields mail)
unfolding with_fields
with_fields-put_column [] j mail = refl
with_fields-put_column ((name, none) ∷ fields) j mail = with_fields-put_column fields (suc j) mail
with_fields-put_column ((name, some value) ∷ fields) j mail =
    with_fields-put_column fields (suc j) (put_slot (slot_of name) value mail)
    ∙ ap some (with_values-put_slot (slot_of name) value fields mail)

with_rows-mails :
    (names : List (List ℕ)) (rows : List (List (Option (List ℕ)))) (queue : List PulledMail)
    → with_rows
        (λ fields queue.
          with_fields put_column 0 fields empty_mail >>= (λ mail. some (queue ++ (mail ∷ []))))
        (map (texts names) rows)
        queue
      ≡ some (queue ++ map (mail_of names) rows)
unfolding with_rows mail_of
with_rows-mails names [] queue = ap some (sym (append-nil queue))
with_rows-mails names (row ∷ rows) queue =
    rw (with_fields-put_column (texts names row) 0 empty_mail) (
      with_rows-mails names rows (queue ++ (mail_of names row ∷ []))
      ∙ ap some (append_assoc queue (mail_of names row ∷ []) (map (mail_of names) rows)))

-- The mails of the rows come behind those in the queue, and the memory of the table is given back.
pub pull_lem :
    (names : List (List ℕ)) (rows : List (List (Option (List ℕ)))) (queue : List PulledMail)
    (h : Heap)
    → AreRows names rows
    → IsFresh h
    → length rows < 2 ^ 31
    → length names < 2 ^ 16
    → (u : Heap) × (pull_sent_info_from_mysql names rows queue h
        ≡ some (queue ++ map (mail_of names) rows, u))
      × (u.cells ≡ h.cells)
      × IsFresh u
unfolding pull_sent_info_from_mysql
pull_lem names rows queue h right free few narrow =
    let (t, u, fills, frees, same, next) = released names rows h right free few narrow in
    let walks =
      walk_lem put_column empty_mail (λ mail queue. queue ++ (mail ∷ [])) names rows h queue right
        free few narrow in
    let found : on_rows
          (λ head queue.
            on_columns put_column (length names) 0 head t empty_mail
            >>= (λ mail. some (queue ++ (mail ∷ []))))
          (length rows) 0 h.fresh t queue
        ≡ some (queue ++ map (mail_of names) rows) =
      (rw fills at walks) ∙ with_rows-mails names rows queue in
    (u, rw (fills, found, frees) refl, same, next)
