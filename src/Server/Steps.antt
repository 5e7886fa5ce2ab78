-- ===== src/Server/Steps.antt =====
-- Each operation of the server, for a worker that obeys what it is sent.
use postfix_edm.Prelude.{
  ℕ, ◌%◌, ◌^◌, ◌≡◌, refl, sym, ◌∙◌, List, ◌∷◌, Option, some, true, false, ◌==◌, arith, inl, inr,
  Bool-cases, Option-cases,
}
use postfix_edm.Pdu.Types.{
  cid_command_start, cid_command_stop, cid_command_pause, cid_command_resume,
}
use postfix_edm.Pdu.Message.{command, rate, answer, status_answer}
use postfix_edm.Server.{
  ClientStatus, ServerStatus, client_php, plain, all_status, Server, Answers, update_client_status,
  send_all_client_pdu, start, stop, pause, resume, adjust_send_rate, sent_email_num, find_status,
  erase_status,
}
use postfix_edm.Server.Handling.{
  receive, on_conn, change_conn, reply, handle_server_command, handle_client_done,
}
use postfix_edm.Server.Agreement.{Agrees, IsInStep, IsInStep-map, IsInStep-send_all, IsInStep-reply}
use postfix_edm.Client.{
  Worker, set_status, set_delay, set_multi, handle_server_status_info, unserialized,
}
use postfix_edm.Client

module _ (parse_status : List ℕ → Option ServerStatus) (w : Worker) (handle : ℕ) where
  abbrev Kept : Server → Type 0
  Kept = IsInStep parse_status w handle

  pub commanded :
      (now c : ℕ) (srv srv' : Server)
      → srv'.conns ≡ (send_all_client_pdu now (plain (command c)) srv).conns
      → srv'.status ≡ c
      → srv'.delay ≡ srv.delay
      → srv'.multi ≡ srv.multi
      → Kept srv
      → Kept srv'
  unfolding send_all_client_pdu Client.handle_pdu set_status
  commanded now c srv srv' conns status delay multi step =
      IsInStep-send_all parse_status now (plain (command c)) srv srv' conns
        (λ v a. record {
          status = sym status;
          delay = a.delay ∙ sym delay;
          multi = a.multi ∙ sym multi;
        })
        step

  pub paused : (now : ℕ) (srv : Server) → Kept srv → Kept (pause now srv)
  unfolding pause send_all_client_pdu
  paused now srv step = commanded now cid_command_pause srv (pause now srv) refl refl refl refl step

  pub answered :
      (now to status : ℕ) (text : List ℕ) (srv : Server)
      → Kept srv
      → Kept (reply now to (plain (answer status text)) srv)
  unfolding Client.handle_pdu
  answered now to status text srv step =
      IsInStep-reply parse_status now to (plain (answer status text)) srv (λ v a. a) step

  pub command_lem :
      (now from : ℕ) (db : Answers) (c : ℕ) (srv : Server)
      → Kept srv
      → Kept (handle_server_command now from db c srv)
  unfolding handle_server_command start stop resume send_all_client_pdu
  command_lem now from db c srv step = elim (Bool-cases (c == cid_command_start)) [
    | inl e ↦ rw e (
        answered now from 0 _ _
          (commanded now cid_command_start srv (start now db srv) refl refl refl refl step))
    | inr e ↦ elim (Bool-cases (c == cid_command_stop)) [
      | inl f ↦
          rw (e, f)
            (answered now from 0 _ _
              (commanded now cid_command_stop srv (stop now srv) refl refl refl refl step))
      | inr f ↦ elim (Bool-cases (c == cid_command_pause)) [
        | inl g ↦ rw (e, f, g) (answered now from 0 _ _ (paused now srv step))
        | inr g ↦ elim (Bool-cases (c == cid_command_resume)) [
          | inl h ↦
              rw (e, f, g, h)
                (answered now from 0 _ _
                  (commanded now cid_command_resume srv (resume now srv) refl refl refl refl step))
          | inr h ↦ rw (e, f, g, h) (answered now from 65535 _ _ step)
        ]
      ]
    ]
  ]

  pub all_status_lem :
      (now to : ℕ) (json : List ℕ) (srv : Server)
      → Kept srv
      → Kept (reply now to (all_status json) srv)
  unfolding Client.handle_pdu
  all_status_lem now to json srv step =
      IsInStep-reply parse_status now to (all_status json) srv (λ v a. a) step

  pub client_done_lem :
      (now : ℕ) (db : Answers) (srv : Server) → Kept srv → Kept (handle_client_done now db srv)
  unfolding handle_client_done
  client_done_lem now db srv step = elim (Bool-cases (sent_email_num db == 0)) [
    | inl e ↦ rw e (paused now srv step)
    | inr e ↦ rw e step
  ]

  pub rate_lem :
      (now delay multi : ℕ) (srv : Server) → Kept srv → Kept (adjust_send_rate now delay multi srv)
  unfolding adjust_send_rate send_all_client_pdu Client.handle_pdu set_delay set_multi
  rate_lem now delay multi srv step =
      IsInStep-send_all parse_status now (plain (rate delay multi)) srv
        (adjust_send_rate now delay multi srv) refl
        (λ v a. record { status = a.status; delay = refl; multi = refl }) step

  pub receive_lem : (now from : ℕ) (srv : Server) → Kept srv → Kept (receive now from srv)
  unfolding receive on_conn
  receive_lem now from srv step =
      IsInStep-map parse_status (change_conn from (λ c. record c { last_recv_tick = now })) srv _
        (λ c. elim (Bool-cases (c.handle == from)) [ inl e ↦ rw e refl | inr e ↦ rw e refl ]) refl
        (λ c f at. elim (Bool-cases (c.handle == from)) [ inl e ↦ rw e f | inr e ↦ rw e f ])
        (λ c f agrees. elim (Bool-cases (c.handle == from)) [
          | inl e ↦ rw e (again agrees)
          | inr e ↦ rw e (again agrees)
        ])
        step
    where
      again : {v : Worker} → Agrees v srv → Agrees v (receive now from srv)
      again a = record { status = a.status; delay = a.delay; multi = a.multi }

  pub reg_lem :
      (from t : ℕ) (srv : Server)
      → ((from == handle) ≡ true → (t == client_php) ≡ false)
      → Kept srv
      → Kept (on_conn from (λ c. record c { client_type = t }) srv)
  unfolding on_conn
  reg_lem from t srv fair step =
      IsInStep-map parse_status (change_conn from (λ c. record c { client_type = t })) srv _
        (λ c. elim (Bool-cases (c.handle == from)) [ inl e ↦ rw e refl | inr e ↦ rw e refl ]) refl
        (λ c f at. elim (Bool-cases (c.handle == from)) [
          | inl e ↦ rw e (fair (ground arith))
          | inr e ↦ rw e f
        ])
        (λ c f agrees. elim (Bool-cases (c.handle == from)) [
          | inl e ↦ rw e (again agrees)
          | inr e ↦ rw e (again agrees)
        ])
        step
    where
      again :
          {v : Worker}
          → Agrees v srv
          → Agrees v (on_conn from (λ c. record c { client_type = t }) srv)
      again a = record { status = a.status; delay = a.delay; multi = a.multi }

  pub status_lem :
      (now from : ℕ) (json : List ℕ) (srv : Server) (s : ServerStatus)
      → parse_status json ≡ some s
      → s.status % 2 ^ 16 ≡ srv.status
      → s.delay % 2 ^ 16 ≡ srv.delay
      → s.multi % 2 ^ 16 ≡ srv.multi
      → Kept srv
      → Kept (reply now from (plain (status_answer json)) srv)
  unfolding Client.handle_pdu handle_server_status_info set_status set_delay set_multi
  status_lem now from json srv s reads status delay multi step =
      IsInStep-reply parse_status now from (plain (status_answer json)) srv
        (λ v a. rw reads (record { status = status; delay = delay; multi = multi })) step

  pub same_conns :
      (ss : List ClientStatus) (srv : Server)
      → Kept srv
      → Kept (record srv { client_statuses = ss })
  same_conns ss srv step = record {
    conn = step.conn;
    at = step.at;
    client = step.client;
    agrees = record {
      status = step.agrees.status;
      delay = step.agrees.delay;
      multi = step.agrees.multi;
    };
  }

  pub heartbeat_lem :
      (s : ClientStatus) (srv : Server) → Kept srv → Kept (update_client_status s srv)
  unfolding update_client_status
  heartbeat_lem s srv step = elim (Option-cases (find_status s.ip srv.client_statuses)) [
    | inl e ↦ rw (update_client_status, e) (same_conns (s ∷ srv.client_statuses) srv step)
    | inr (old, e) ↦
        rw (update_client_status, e)
          (same_conns (s ∷ erase_status s.ip srv.client_statuses) srv step)
  ]
