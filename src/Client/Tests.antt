-- ===== src/Client/Tests.antt =====
-- The client at concrete inputs.
use postfix_edm.Prelude.{
  ◌≡◌, refl, [], ◌∷◌, ◌++◌, ◌-◌, ◌+◌, ◌%◌, ◌^◌, zero, suc, none, some, true, false, if◌then◌else◌,
  arith, length, take, drop, List, ℕ, Option, Bool, ◌==◌,
}
use mathlib.Core.Path.{subst}
use postfix_edm.Prelude.Memory.{◌>>=◌}
use postfix_edm.Prelude.Text.{has}
use postfix_edm.Pdu.Message.{rate, command}
use postfix_edm.Server.{plain}
use postfix_edm.Client.{ClientConn, new_worker, obey, set_status, set_delay, set_multi, handle_pdu}
use postfix_edm.Client.Timing.{is_timed_out, client_conn_timer}
use postfix_edm.Client.Processes.{Master, adjust_children, sig_chld_handler}
use postfix_edm.Client.Pool.{IsCounted, HasChildren, adjust_children_lem, sig_chld_handler_stray}
use postfix_edm.Client.Locks.{
  Role, worker_thread, child, System, Steps, stay, later, step, begin, locks, busy_child, init,
  set_holder, set_todo, child_lock, lock, unlock, pull,
}
use postfix_edm.Client.Locks.Exclusion.{pulls_alone}
use postfix_edm.Client.Locks.Crossing.{StaysCrossed, deadlock}
use postfix_edm.Client.Pulling.{ChildProcess, child_rounds}
use postfix_edm.Client.Pulling.Mails.{mail_of}
use postfix_edm.Client.Pulling.Rounds.{mails_of, texts_given, outcome, child_rounds_lem}
use postfix_edm.Mysql.Sample.{no_heap}
use postfix_edm.Net.Balance.{Ends}
use postfix_edm.Client.Mail.{MailInfo, codes, mail_text, newline}
use postfix_edm.Client.Headers.{
  IsOnOneLine, word_text, skip_lines, lines_before, behind, mail_text-headers,
}
use postfix_edm.Client.Reconnecting.{made_conns, beaten, client_conn_timer_lem}

abbrev silent : ClientConn
silent = record { handle = some 6; last_send_tick = 0; last_recv_tick = 0; sent = [] }

client_conn_timer_lem_example :
    (client_conn_timer 40000 (123 ∷ []) (some 7) (record { conns = silent ∷ []; closed = 3 ∷ [] })
      ≡ (if is_timed_out 40000 silent
          then record { conns = made_conns 40000 (some 7); closed = (3 ∷ []) ++ (6 ∷ []) }
          else record { conns = beaten 40000 (123 ∷ []) silent ∷ []; closed = 3 ∷ [] }))
    × (client_conn_timer 40000 (123 ∷ []) (some 7) (record { conns = []; closed = 3 ∷ [] })
        ≡ record { conns = []; closed = 3 ∷ [] })
client_conn_timer_lem_example =
    client_conn_timer_lem 40000 (123 ∷ []) (some 7) silent 6 (3 ∷ []) refl

timed_out : is_timed_out 40000 silent ≡ true
timed_out = refl

-- A start wakes the worker thread, a rate does not.
started : obey (λ json. none) (plain (rate 30 4) ∷ plain (command 1) ∷ []) new_worker ≡ record {
  status = 1;
  delay = 30;
  multi = 4;
  shm_status = 1;
  shm_delay = 30;
  shm_multi = 4;
  woken = 1;
}
unfolding obey handle_pdu set_status set_delay set_multi
started = refl

-- Three children.
abbrev three : Master
three = record { child_num = 3; children = 101 ∷ 102 ∷ 103 ∷ []; signalled = [] }

three-IsCounted : IsCounted three
three-IsCounted = record { counted = refl; small = omega arith }

adjust_children_lem_example :
    Ends
      (λ m.
        HasChildren 1 m
        × (m.signalled ≡ three.signalled ++ take (three.child_num - 1) three.children))
      (adjust_children 1 [] three)
adjust_children_lem_example =
    adjust_children_lem 1 [] three three-IsCounted (omega arith) (omega arith)

-- waitpid reports no child.
sig_chld_handler_stray_example :
    Ends
      (λ m. (m.child_num ≡ 3) × (length m.children ≡ suc 3))
      (adjust_children 3
        (104 ∷ [])
        (sig_chld_handler (some (record { pid = 0; retired = false })) three))
sig_chld_handler_stray_example =
    sig_chld_handler_stray 3 0 (104 ∷ []) three three-IsCounted refl (omega arith) (omega arith)
      refl

-- A mail with a copy; its subject is the two bytes of a letter that is not ASCII.
abbrev greeting : MailInfo
greeting = record {
  to = codes "a@b";
  cc = some (codes "c@d");
  subject = 195 ∷ 169 ∷ [];
  content = codes "hi";
  sender = codes "me";
  from = codes "e@f";
}

greeting-IsOnOneLine : IsOnOneLine greeting
greeting-IsOnOneLine = (refl, λ cc e. subst (λ l. has newline l ≡ false) (inner e) refl)
  where
    inner : {l r : List ℕ} → some l ≡ some r → l ≡ r
    inner e = cc

abbrev same : List ℕ → List ℕ
same s = s

mail_text-headers_example :
    (word_text (drop 9 (skip_lines (lines_before greeting.cc) (mail_text false same greeting)))
      ≡ greeting.subject)
    × (word_text (
          drop 6 (
            behind newline (skip_lines (lines_before greeting.cc) (mail_text false same greeting))))
        ≡ greeting.sender)
mail_text-headers_example =
    mail_text-headers false same greeting greeting-IsOnOneLine (omega arith, (omega arith, tt))
      (omega arith, (omega arith, tt))

-- Thread 0 is the one of the worker, all others are children.
abbrev roles : ℕ → Role
roles zero = worker_thread
roles (suc n) = child

abbrev child_pulls : System
child_pulls = record {
  holder = set_holder child_lock (some 1) (λ l. none);
  todo =
      set_todo 1 (pull ∷ unlock child_lock ∷ [])
        (set_todo 1 (lock child_lock ∷ pull ∷ unlock child_lock ∷ []) (λ i. []));
}

child_gets_there : Steps roles init child_pulls
child_gets_there =
    later (later stay (step 1 (begin refl busy_child))) (step 1 (locks {l = child_lock} refl refl))

pulls_alone_example : (◌≡◌ {A = ℕ} 1 1) × (child_pulls.holder child_lock ≡ some 1)
pulls_alone_example = pulls_alone 1 1 child_gets_there refl refl

deadlock_example : (s : System) × Steps roles init s × StaysCrossed roles 0 1 s
deadlock_example = deadlock {role = roles} 0 1 refl refl refl

abbrev resting_child : ChildProcess
resting_child = record {
  heap = no_heap;
  send_mail_queue = [];
  have_push_num = 5;
  tried = 0;
  sent = [];
}

abbrev mail_names : List (List ℕ)
mail_names =
    codes "To" ∷ codes "subject" ∷ codes "sender" ∷ codes "from" ∷ codes "content" ∷ codes "cc" ∷ []

abbrev mail_row : List ℕ → List (Option (List ℕ))
mail_row subject =
    some (codes "a@b")
    ∷ some subject
    ∷ some (codes "me")
    ∷ some (codes "c@d")
    ∷ some (codes "hi")
    ∷ none
    ∷ []

abbrev one_mail : List (List (Option (List ℕ)))
one_mail = mail_row (codes "news") ∷ []

abbrev second_fails : ℕ → Bool
second_fails k = if k == 1 then false else true

child_rounds_lem_example :
    (child_rounds false
        (λ s. s)
        none
        second_fails
        mail_names
        (one_mail ∷ one_mail ∷ one_mail ∷ [])
        resting_child
      >>= (λ t. some (outcome t)))
    ≡ (texts_given false
          (λ s. s)
          none
          second_fails
          0
          (mails_of mail_names (one_mail ∷ one_mail ∷ one_mail ∷ []))
        >>= (λ texts. some (
          texts,
          (5 + length (mails_of mail_names (one_mail ∷ one_mail ∷ one_mail ∷ []))) % 2 ^ 64,
          [],
          no_heap.cells,
        )))
child_rounds_lem_example =
    child_rounds_lem false (λ s. s) none second_fails mail_names
      (one_mail ∷ one_mail ∷ one_mail ∷ []) resting_child
      ((refl, tt), omega arith, ((refl, tt), omega arith, ((refl, tt), omega arith, tt)))
      (λ a more. refl) refl (omega arith) (omega arith)

-- Two texts come of the three, and a mail with an empty subject stops the child,
-- also where NULL can be printed.
sent_of_three :
    (texts_given false
        (λ s. s)
        none
        second_fails
        0
        (mails_of mail_names (one_mail ∷ one_mail ∷ one_mail ∷ []))
      >>= (λ texts. some (length texts)))
    ≡ some 2
unfolding texts_given postfix_edm.Client.Pulling.Rounds.text_given mails_of mail_of
    postfix_edm.Client.Pulling.slot_of
sent_of_three = refl

empty_subject_stops :
    texts_given false
      (λ s. s)
      (some (codes "(null)"))
      second_fails
      0
      (mails_of mail_names ((mail_row [] ∷ []) ∷ []))
    ≡ none
unfolding texts_given postfix_edm.Client.Pulling.Rounds.text_given mails_of mail_of
    postfix_edm.Client.Pulling.slot_of
empty_subject_stops = refl
