-- ===== src/Server/Eviction.antt =====
-- The whole pass of the timer of the server.
use postfix_edm.Prelude.{
  ℕ, ◌+◌, ◌%◌, ◌^◌, ◌≡◌, refl, sym, ap, ◌∙◌, List, [], ◌∷◌, ◌++◌, false, ◌==◌, if◌then◌else◌, arith,
  inl, inr, Bool-cases, append_assoc, append-nil,
}
use mathlib.Core.Path.{subst}
use postfix_edm.Server.{client_php, ServConn, Server}
use postfix_edm.Server.Handling.{
  is_timed_out, wants_beat, timer_loop, count_online, server_conn_timer,
}
use postfix_edm.Server.Timeouts.{
  HasDistinct, AreDistinct, AreDistinct-append, IsUnused, handles, handles-append, kept, gone,
  examined, expired, examine, examine_lem,
}

distinct_parts :
    (xs cs : List ServConn) (c : ServConn)
    → AreDistinct (handles (xs ++ (c ∷ cs)))
    → (IsUnused c.handle (handles xs) × IsUnused c.handle (handles cs))
      × AreDistinct (handles (xs ++ cs))
distinct_parts xs cs c d =
    let parts =
      AreDistinct-append c.handle (handles xs) (handles cs)
        (subst AreDistinct (handles-append xs (c ∷ cs)) d) in
    (parts.0, subst AreDistinct (sym (handles-append xs cs)) parts.1)

same_handle :
    (xs cs : List ServConn) (c d : ServConn)
    → c.handle ≡ d.handle
    → handles (xs ++ (c ∷ cs)) ≡ handles (xs ++ (d ∷ cs))
same_handle [] cs c d e = ap (λ h. h ∷ handles cs) e
same_handle (x ∷ xs) cs c d e = ap (λ t. x.handle ∷ t) (same_handle xs cs c d e)

distinct_kept :
    (now : ℕ) (xs cs : List ServConn) (c : ServConn)
    → AreDistinct (handles (xs ++ (c ∷ cs)))
    → AreDistinct (handles (xs ++ (kept now c ++ cs)))
distinct_kept now xs cs c d = elim (Bool-cases (c.client_type == client_php)) [
  | inl php ↦ rw php d
  | inr not_php ↦ elim (Bool-cases (is_timed_out now c)) [
    | inl out ↦ rw (not_php, out) (distinct_parts xs cs c d).1
    | inr stays ↦ elim (Bool-cases (wants_beat now c)) [
      | inl beats ↦ rw (not_php, stays, beats) (subst AreDistinct (same_handle xs cs c _ refl) d)
      | inr quiet ↦ rw (not_php, stays, quiet) d
    ]
  ]
]

timer_loop_lem :
    (now : ℕ) (cs xs : List ServConn) (srv : Server)
    → srv.conns ≡ xs ++ cs
    → AreDistinct (handles (xs ++ cs))
    → ((timer_loop now cs srv).conns ≡ xs ++ examined now cs)
      × ((timer_loop now cs srv).closed ≡ srv.closed ++ expired now cs)
      × AreDistinct (handles (xs ++ examined now cs))
unfolding timer_loop
timer_loop_lem now [] xs srv e d = (e, sym (append-nil srv.closed), d)
timer_loop_lem now (c ∷ cs) xs srv e d =
    let parts = distinct_parts xs cs c d in
    let one = examine_lem now c xs cs srv e parts.0.0 parts.0.1 in
    let more : AreDistinct (handles ((xs ++ kept now c) ++ cs)) =
      subst (λ l. AreDistinct (handles l)) (sym (append_assoc xs (kept now c) cs))
        (distinct_kept now xs cs c d) in
    let rest =
      timer_loop_lem now cs (xs ++ kept now c) (examine now c srv)
        (one.0 ∙ sym (append_assoc xs (kept now c) cs)) more in
    (
      rest.0 ∙ append_assoc xs (kept now c) (examined now cs),
      rest.1
          ∙ ap (λ l. l ++ expired now cs) one.1
          ∙ append_assoc srv.closed (gone now c) (expired now cs),
      subst (λ l. AreDistinct (handles l)) (append_assoc xs (kept now c) (examined now cs)) rest.2,
    )

-- Every connection but those of PHP clients was heard from in time.
unfoldable pub AreHeard : ℕ → List ServConn → Type 0
AreHeard now [] = Unit
AreHeard now (c ∷ cs) =
    ((c.client_type == client_php) ≡ false → is_timed_out now c ≡ false) × AreHeard now cs

-- How many connections are not those of PHP clients.
abbrev pub clients : List ServConn → ℕ
clients [] = 0
clients (c ∷ cs) = (if c.client_type == client_php then 0 else 1) + clients cs

count_online_lem : (cs : List ServConn) → count_online cs ≡ clients cs % 2 ^ 16
unfolding count_online
count_online_lem [] = refl
count_online_lem (c ∷ cs) = elim (Bool-cases (c.client_type == client_php)) [
  | inl e ↦ rw e (omega (arith, count_online_lem cs))
  | inr e ↦ rw e (omega (arith, count_online_lem cs))
]

examined-AreHeard : (now : ℕ) (cs : List ServConn) → AreHeard now (examined now cs)
unfolding AreHeard
examined-AreHeard now [] = tt
examined-AreHeard now (c ∷ cs) = elim (Bool-cases (c.client_type == client_php)) [
  | inl php ↦ rw php ((λ f. ground arith), examined-AreHeard now cs)
  | inr not_php ↦ elim (Bool-cases (is_timed_out now c)) [
    | inl out ↦ rw (not_php, out) (examined-AreHeard now cs)
    | inr stays ↦ elim (Bool-cases (wants_beat now c)) [
      | inl beats ↦ rw (not_php, stays, beats) ((λ f. stays), examined-AreHeard now cs)
      | inr quiet ↦ rw (not_php, stays, quiet) ((λ f. stays), examined-AreHeard now cs)
    ]
  ]
]

-- After a pass of the timer, where no two connections had a handle: the connections are those of PHP
-- clients, unchanged, and those of the clients heard from in time, with a heartbeat sent where one was
-- due; the handles of the others, and no more, are closed; still no two have a handle, and the number
-- of clients on line is counted modulo 2 ^ 16.
pub server_conn_timer_lem :
    (now : ℕ) (srv : Server)
    → HasDistinct srv.conns
    → (((server_conn_timer now srv).conns ≡ examined now srv.conns)
        × ((server_conn_timer now srv).closed ≡ srv.closed ++ expired now srv.conns))
      × ((AreHeard now (server_conn_timer now srv).conns
            × HasDistinct (server_conn_timer now srv).conns)
          × ((server_conn_timer now srv).online_client_num
              ≡ clients (server_conn_timer now srv).conns % 2 ^ 16))
unfolding server_conn_timer HasDistinct
server_conn_timer_lem now srv distinct =
    let ran = timer_loop_lem now srv.conns [] srv refl distinct in
    (
      (ran.0, ran.1),
      (
        (
          subst (AreHeard now) (sym ran.0) (examined-AreHeard now srv.conns),
          subst (λ l. AreDistinct (handles l)) (sym ran.0) ran.2,
        ),
        count_online_lem (timer_loop now srv.conns srv).conns,
      ),
    )
