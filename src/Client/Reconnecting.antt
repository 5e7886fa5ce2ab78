-- ===== src/Client/Reconnecting.antt =====
-- The connection of a client, over a pass of its timer.
use postfix_edm.Prelude.{
  ℕ, ◌≡◌, refl, List, [], ◌∷◌, ◌++◌, Option, none, some, true, ◌==◌, if◌then◌else◌, inl, inr,
  Bool-cases, ==_iff,
}
use postfix_edm.Pdu.Message.{client_beat}
use postfix_edm.Server.{plain}
use postfix_edm.Client.{ClientConn, Client, send_pdu, connect_server, close_conn, erase_conn}
use postfix_edm.Client.Timing.{
  wants_beat, is_timed_out, reconnect, on_timer, timer_loop, client_conn_timer,
}

-- A connection that was just made, where it was.
abbrev pub made_conns : ℕ → Option ℕ → List ClientConn
made_conns now none = []
made_conns now (some h) =
    record { handle = some h; last_send_tick = now; last_recv_tick = now; sent = [] } ∷ []

abbrev pub beaten : ℕ → List ℕ → ClientConn → ClientConn
beaten now json c = if wants_beat now c then send_pdu now (plain (client_beat json)) c else c

-- A client with one connection has, after a pass of its timer, that one, with a heartbeat sent where it
-- was due, while the server was heard from in time; else the connection is closed and there is the one
-- that netlib_connect made, if it made one. A client with no connection stays so.
pub client_conn_timer_lem :
    (now : ℕ) (json : List ℕ) (made : Option ℕ) (c : ClientConn) (h : ℕ) (shut : List ℕ)
    → c.handle ≡ some h
    → (client_conn_timer now json made (record { conns = c ∷ []; closed = shut }) ≡ (
        if is_timed_out now c
        then record { conns = made_conns now made; closed = shut ++ (h ∷ []) }
        else record { conns = beaten now json c ∷ []; closed = shut }))
      × (client_conn_timer now json made (record { conns = []; closed = shut })
          ≡ record { conns = []; closed = shut })
unfolding client_conn_timer timer_loop on_timer send_pdu connect_server close_conn erase_conn
client_conn_timer_lem now json made c h shut e = (pass, refl)
  where
    here : (h == h) ≡ true
    here = (==_iff h h).1 refl

    start : Client
    start = record { conns = c ∷ []; closed = shut }

    renewed :
        (made : Option ℕ)
        → reconnect now made (record { conns = []; closed = shut ++ (h ∷ []) })
          ≡ record { conns = made_conns now made; closed = shut ++ (h ∷ []) }
    renewed none = refl
    renewed (some k) = refl

    pass : client_conn_timer now json made start ≡ (
        if is_timed_out now c
        then record { conns = made_conns now made; closed = shut ++ (h ∷ []) }
        else record { conns = beaten now json c ∷ []; closed = shut })
    pass = elim (Bool-cases (wants_beat now c)) [
      | inl beats ↦ elim (Bool-cases (is_timed_out now c)) [
        | inl out ↦ rw (beats, out, e, here, here) (renewed made)
        | inr stays ↦ rw (beats, stays, e, here) refl
      ]
      | inr quiet ↦ elim (Bool-cases (is_timed_out now c)) [
        | inl out ↦ rw (quiet, out, e, here) (renewed made)
        | inr stays ↦ rw (quiet, stays) refl
      ]
    ]
