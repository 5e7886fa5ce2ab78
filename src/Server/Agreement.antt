-- ===== src/Server/Agreement.antt =====
-- The commands on the server, and the workers that obey what they are sent.
use postfix_edm.Prelude.{
  ℕ, ◌≡◌, refl, sym, ap, ◌∙◌, List, [], ◌∷◌, ◌++◌, map, Option, some, false, ◌==◌, inl, inr,
  Bool-cases, ==_iff,
}
use postfix_edm.Server.{ServerStatus, client_php, Packet, ServConn, Server, send_pdu, tell_client}
use postfix_edm.Server.Handling.{conn_of, on_conn, change_conn, reply}
use postfix_edm.Client.{
  Worker, obey, set_status, set_delay, set_multi, handle_server_status_info, unserialized,
}
use postfix_edm.Client

-- A worker that is set as the server is.
pub record Agrees (w : Worker) (srv : Server) : Type 0 where
  pub status : w.status ≡ srv.status
  pub delay : w.delay ≡ srv.delay
  pub multi : w.multi ≡ srv.multi

module _ (parse_status : List ℕ → Option ServerStatus) where
  -- The connection with the handle is that of a client, and a worker that started as `w` and has obeyed
  -- what was sent there is set as the server is.
  pub record IsInStep (w : Worker) (handle : ℕ) (srv : Server) : Type 0 where
    pub conn : ServConn
    pub at : conn_of handle srv.conns ≡ some conn
    pub client : (conn.client_type == client_php) ≡ false
    pub agrees : Agrees (obey parse_status conn.sent w) srv

  obey-append :
      (ps qs : List Packet) (w : Worker)
      → obey parse_status (ps ++ qs) w ≡ obey parse_status qs (obey parse_status ps w)
  unfolding obey
  obey-append [] qs w = refl
  obey-append (p ∷ ps) qs w = obey-append ps qs (Client.handle_pdu parse_status p w)

some_inj : {c d : ServConn} → some c ≡ some d → c ≡ d
some_inj e = cc

conn_of-map :
    (handle : ℕ) (f : ServConn → ServConn) (cs : List ServConn) {c : ServConn}
    → ((d : ServConn) → (f d).handle ≡ d.handle)
    → conn_of handle cs ≡ some c
    → conn_of handle (map f cs) ≡ some (f c)
unfolding conn_of
conn_of-map handle f [] same at = absurd (cc)
conn_of-map handle f (d ∷ ds) {c} same at = elim (Bool-cases (d.handle == handle)) [
  | inl e ↦
      let one : some d ≡ some c = sym (rw e refl) ∙ at in
      rw (ap (λ k. k == handle) (same d) ∙ e) (ap (λ x. some (f x)) (some_inj one))
  | inr e ↦
      let later : conn_of handle ds ≡ some c = sym (rw e refl) ∙ at in
      rw (ap (λ k. k == handle) (same d) ∙ e) (conn_of-map handle f ds same later)
]

conn_of-handle :
    (handle : ℕ) (cs : List ServConn) {c : ServConn}
    → conn_of handle cs ≡ some c
    → c.handle ≡ handle
unfolding conn_of
conn_of-handle handle [] at = absurd (cc)
conn_of-handle handle (d ∷ ds) {c} at = elim (Bool-cases (d.handle == handle)) [
  | inl e ↦
      let one : some d ≡ some c = sym (rw e refl) ∙ at in
      sym (ap ServConn.handle (some_inj one)) ∙ (==_iff d.handle handle).0 e
  | inr e ↦
      let later : conn_of handle ds ≡ some c = sym (rw e refl) ∙ at in
      conn_of-handle handle ds later
]

module _ (parse_status : List ℕ → Option ServerStatus) where
  sent_more :
      (w : Worker) (now : ℕ) (p : Packet) (c : ServConn) (srv srv' : Server)
      → ((v : Worker) → Agrees v srv → Agrees (Client.handle_pdu parse_status p v) srv')
      → Agrees (obey parse_status c.sent w) srv
      → Agrees (obey parse_status (send_pdu now p c).sent w) srv'
  unfolding obey
  sent_more w now p c srv srv' obeys agrees =
      rw (obey-append parse_status c.sent (p ∷ []) w) (obeys (obey parse_status c.sent w) agrees)

module _ (parse_status : List ℕ → Option ServerStatus) {w : Worker} {handle : ℕ} where
  -- Every connection changes by `f`, and the server by as much as the worker.
  pub IsInStep-map :
      (f : ServConn → ServConn) (srv srv' : Server)
      → ((c : ServConn) → (f c).handle ≡ c.handle)
      → srv'.conns ≡ map f srv.conns
      → ((c : ServConn)
          → (c.client_type == client_php) ≡ false
          → c.handle ≡ handle
          → ((f c).client_type == client_php) ≡ false)
      → ((c : ServConn)
          → (c.client_type == client_php) ≡ false
          → Agrees (obey parse_status c.sent w) srv
          → Agrees (obey parse_status (f c).sent w) srv')
      → IsInStep parse_status w handle srv
      → IsInStep parse_status w handle srv'
  IsInStep-map f srv srv' same conns client news step = record {
    conn = f step.conn;
    at = rw conns (conn_of-map handle f srv.conns same step.at);
    client = client step.conn step.client (conn_of-handle handle srv.conns step.at);
    agrees = news step.conn step.client step.agrees;
  }

  -- What is sent to all clients.
  pub IsInStep-send_all :
      (now : ℕ) (p : Packet) (srv srv' : Server)
      → srv'.conns ≡ map (tell_client now p) srv.conns
      → ((v : Worker) → Agrees v srv → Agrees (Client.handle_pdu parse_status p v) srv')
      → IsInStep parse_status w handle srv
      → IsInStep parse_status w handle srv'
  IsInStep-send_all now p srv srv' conns obeys step =
      IsInStep-map (tell_client now p) srv srv' (λ c. handle_kept c) conns
        (λ c e at. rw (e, e) refl)
        (λ c e agrees. rw e (sent_more parse_status w now p c srv srv' obeys agrees)) step
    where
      handle_kept : (c : ServConn) → (tell_client now p c).handle ≡ c.handle
      handle_kept c = elim (Bool-cases (c.client_type == client_php)) [
        | inl e ↦ rw e refl
        | inr e ↦ rw e refl
      ]

  -- What is sent to one.
  pub IsInStep-reply :
      (now to : ℕ) (p : Packet) (srv : Server)
      → ((v : Worker) → Agrees v srv → Agrees (Client.handle_pdu parse_status p v) srv)
      → IsInStep parse_status w handle srv
      → IsInStep parse_status w handle (reply now to p srv)
  unfolding reply on_conn
  IsInStep-reply now to p srv obeys step =
      IsInStep-map (change_conn to (send_pdu now p)) srv (reply now to p srv)
        (λ c. elim (Bool-cases (c.handle == to)) [ inl e ↦ rw e refl | inr e ↦ rw e refl ]) refl
        (λ c f at. elim (Bool-cases (c.handle == to)) [ inl e ↦ rw e f | inr e ↦ rw e f ])
        (λ c f agrees. elim (Bool-cases (c.handle == to)) [
          | inl e ↦ rw e (
              sent_more parse_status w now p c srv (reply now to p srv) (λ v a. again (obeys v a))
                agrees)
          | inr e ↦ rw e (again agrees)
        ])
        step
    where
      again : {v : Worker} → Agrees v srv → Agrees v (reply now to p srv)
      again a = record { status = a.status; delay = a.delay; multi = a.multi }
