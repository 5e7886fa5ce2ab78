-- ===== src/Server/Small.antt =====
-- The numbers of the server fit 16 bits, whatever packets it handles.
use postfix_edm.Prelude.{ℕ, ◌^◌, ◌<◌, ◌==◌, inl, inr, Bool-cases, Option-cases, arith}
use postfix_edm.Pdu.Types.{
  cid_command_start, cid_command_stop, cid_command_pause, cid_command_resume,
}
use postfix_edm.Server.{
  ClientStatus, ServerStatus, Server, Answers, ServConn, start, stop, pause, resume,
  send_all_client_pdu, adjust_send_rate, total_num_of, update_client_status, find_status,
  sent_email_num,
}
use postfix_edm.Server.Handling.{
  receive, on_conn, reply, handle_server_command, handle_client_done, status_of, success,
}

pub record IsSmall (s : ServerStatus) : Type 0 where
  pub status : s.status < 2 ^ 16
  pub delay : s.delay < 2 ^ 16
  pub multi : s.multi < 2 ^ 16
  pub total_num : s.total_num < 2 ^ 16
  pub online_client_num : s.online_client_num < 2 ^ 16

total_num_of-small : (db : Answers) → total_num_of db < 2 ^ 16
unfolding total_num_of
total_num_of-small db = elim (Option-cases db.total) [
  | inl e ↦ rw e (omega arith)
  | inr (n, e) ↦ rw e (omega arith)
]

pub IsSmall-command :
    (now from c : ℕ) (db : Answers) (srv : Server)
    → IsSmall (status_of srv)
    → IsSmall (status_of (handle_server_command now from db c srv))
unfolding handle_server_command start stop pause resume send_all_client_pdu reply on_conn
IsSmall-command now from c db srv ok = elim (Bool-cases (c == cid_command_start)) [
  | inl e ↦ rw e (record {
    status = omega arith;
    delay = ok.delay;
    multi = ok.multi;
    total_num = total_num_of-small db;
    online_client_num = ok.online_client_num;
  })
  | inr e ↦ elim (Bool-cases (c == cid_command_stop)) [
    | inl f ↦ rw (e, f) (with_status cid_command_stop (omega arith))
    | inr f ↦ elim (Bool-cases (c == cid_command_pause)) [
      | inl g ↦ rw (e, f, g) (with_status cid_command_pause (omega arith))
      | inr g ↦ elim (Bool-cases (c == cid_command_resume)) [
        | inl h ↦ rw (e, f, g, h) (with_status cid_command_resume (omega arith))
        | inr h ↦ rw (e, f, g, h) (with_status srv.status ok.status)
      ]
    ]
  ]
]
  where
    with_status : (k : ℕ) → k < 2 ^ 16 → IsSmall (record (status_of srv) { status = k })
    with_status k small = record {
      status = small;
      delay = ok.delay;
      multi = ok.multi;
      total_num = ok.total_num;
      online_client_num = ok.online_client_num;
    }

pub IsSmall-heartbeat :
    (s : ClientStatus) (srv : Server)
    → IsSmall (status_of srv)
    → IsSmall (status_of (update_client_status s srv))
unfolding update_client_status
IsSmall-heartbeat s srv ok = elim (Option-cases (find_status s.ip srv.client_statuses)) [
  | inl e ↦ rw (update_client_status, e) ok
  | inr (old, e) ↦ rw (update_client_status, e) ok
]

pub IsSmall-client_done :
    (now : ℕ) (db : Answers) (srv : Server)
    → IsSmall (status_of srv)
    → IsSmall (status_of (handle_client_done now db srv))
unfolding handle_client_done pause send_all_client_pdu
IsSmall-client_done now db srv ok = elim (Bool-cases (sent_email_num db == 0)) [
  | inl e ↦ rw e (record {
    status = omega arith;
    delay = ok.delay;
    multi = ok.multi;
    total_num = ok.total_num;
    online_client_num = ok.online_client_num;
  })
  | inr e ↦ rw e ok
]

pub IsSmall-rate :
    (now from delay multi : ℕ) (srv : Server)
    → delay < 2 ^ 16
    → multi < 2 ^ 16
    → IsSmall (status_of srv)
    → IsSmall (status_of (reply now from success (adjust_send_rate now delay multi srv)))
unfolding adjust_send_rate send_all_client_pdu reply on_conn
IsSmall-rate now from delay multi srv d m ok = record {
  status = ok.status;
  delay = d;
  multi = m;
  total_num = ok.total_num;
  online_client_num = ok.online_client_num;
}

pub IsSmall-on_conn :
    (handle : ℕ) (f : ServConn → ServConn) (srv : Server)
    → IsSmall (status_of srv)
    → IsSmall (status_of (on_conn handle f srv))
unfolding on_conn
IsSmall-on_conn handle f srv ok = ok

pub IsSmall-receive :
    (now handle : ℕ) (srv : Server)
    → IsSmall (status_of srv)
    → IsSmall (status_of (receive now handle srv))
unfolding receive
IsSmall-receive now handle srv ok = IsSmall-on_conn handle _ srv ok
