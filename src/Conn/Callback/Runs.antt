-- ===== src/Conn/Callback/Runs.antt =====
-- The callback at a connection that is closed.
use postfix_edm.Prelude.{
  ◌≡◌, refl, sym, ap, ◌∙◌, none, some, true, ◌==◌, ==_iff, inl, inr, Bool-cases, arith,
}
use mathlib.Core.Path.{subst}
use postfix_edm.Net.{update}
use postfix_edm.Net.BaseSockets.{msg_close}
use postfix_edm.Conn.Callback.{Conn, Conns, Handlers, imconn_callback, close_found}
use postfix_edm.Conn.Callback.Counts.{AreConns, IsCounted, one_conn}
use postfix_edm.Conn.Callback.Alive.{Keeps, close_found-Keeps, imconn_callback_lem}

abbrev closing : Handlers
closing = record {
  on_confirm = λ p s. some s;
  on_read = λ p s. some s;
  on_write = λ p s. some s;
  on_close = close_found;
}

-- The connection at 2, with handle 7.
abbrev one_left : Conns
one_left = record {
  objects = update 2 (some (record { handle = 7; ref_count = 1 })) (λ p. none);
  conn_map = update 7 (some 2) (λ h. none);
}

idle-Keeps : Keeps (λ p s. some s)
unfolding postfix_edm.Conn.Callback.Alive.Keeps
idle-Keeps = λ extra h p s ok some_held found. (s, refl, ok)

one_left-AreConns : AreConns (λ p. 0) one_left
one_left-AreConns = record {
  mapped = λ h p found. elim (Bool-cases (7 == h)) [
    | inl e ↦
        let there : some 2 ≡ some p = sym (rw e refl) ∙ found in
        let eq : 2 ≡ p = cc in
        record {
          conn = record { handle = 7; ref_count = 1 };
          at = ap one_left.objects (sym eq);
          its_handle = (==_iff 7 h).0 e;
        }
    | inr e ↦ absurd (let gone : none ≡ some p = sym (rw e refl) ∙ found in cc)
  ];
  counted = λ p c at. elim (Bool-cases (2 == p)) [
    | inl e ↦
        let same : record { handle = 7; ref_count = 1 } ≡ c = one_conn (rw e refl) at in
        let good : IsCounted (λ p. 0) one_left p (record { handle = 7; ref_count = 1 }) = record {
          exact = rw e refl;
          alive = omega arith;
        } in
        subst (IsCounted (λ p. 0) one_left p) same good
    | inr e ↦ absurd (let gone : none ≡ some c = sym (rw e refl) ∙ at in cc)
  ];
  held = λ p some_held. absurd (omega arith);
}

imconn_callback_lem_example :
    (t : Conns) × (imconn_callback closing true msg_close 7 one_left ≡ some t) × AreConns (λ p. 0) t
imconn_callback_lem_example =
    imconn_callback_lem closing true msg_close 7 (λ p. 0) one_left
      (record {
        confirms = idle-Keeps;
        reads = idle-Keeps;
        writes = idle-Keeps;
        closes = close_found-Keeps;
      })
      one_left-AreConns
