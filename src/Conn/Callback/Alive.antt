-- ===== src/Conn/Callback/Alive.antt =====
-- A callback uses no connection that was deleted.
use postfix_edm.Prelude.{
  ℕ, suc, ◌<◌, ◌≡◌, refl, sym, ap, ◌∙◌, Option, none, some, Bool, true, false, ◌==◌, ==_iff, inl,
  inr, Bool-cases, arith,
}
use postfix_edm.Net.{update}
use postfix_edm.Net.BaseSockets.{
  Msg, msg_connect, msg_confirm, msg_read, msg_write, msg_close, msg_timer,
}
use postfix_edm.Net.Counts.{bump, bump_self}
use postfix_edm.Conn.Callback.{
  Conn, Conns, Handlers, handle_msg, on_found, imconn_callback, close_found,
}
use postfix_edm.Conn.Callback.Counts.{
  AreConns, one_conn, bump_ne, in_map, in_map_found, grasp_lem, let_loose_lem,
}

-- A handler of a connection of the map to which a reference is held returns, and every count is again exactly
-- the references that are held with that of the map.
unfoldable pub Keeps : (ℕ → Conns → Option Conns) → Type 0
Keeps handler =
    (extra : ℕ → ℕ) (h p : ℕ) (s : Conns)
    → AreConns extra s
    → 0 < extra p
    → s.conn_map h ≡ some p
    → (t : Conns) × (handler p s ≡ some t) × AreConns extra t

pub record AllKeep (v : Handlers) : Type 0 where
  pub confirms : Keeps v.on_confirm
  pub reads : Keeps v.on_read
  pub writes : Keeps v.on_write
  pub closes : Keeps v.on_close

-- What close leaves of the map counts as one reference more that is held.
erased-AreConns :
    (extra : ℕ → ℕ) (h p : ℕ) (s : Conns) (c : Conn)
    → AreConns extra s
    → s.conn_map h ≡ some p
    → s.objects p ≡ some c
    → c.handle ≡ h
    → AreConns (bump p extra) (record s { conn_map = update c.handle none s.conn_map })
erased-AreConns extra h p s c ok found its is_h = record {
  mapped = λ k q there. elim (Bool-cases (c.handle == k)) [
    | inl e ↦ absurd (let gone : none ≡ some q = sym (rw e refl) ∙ there in cc)
    | inr e ↦
        let n = ok.mapped k q ((rw e refl) ∙ there) in
        record { conn = n.conn; at = n.at; its_handle = n.its_handle }
  ];
  counted = λ q d at.
      let k = ok.counted q d at in
      let exact = k.exact in
      elim (Bool-cases (p == q)) [
        | inl e ↦
            let eq = (==_iff p q).0 e in
            let same : d ≡ c = one_conn at (ap s.objects (sym eq) ∙ its) in
            let here = ap Conn.handle same in
            let one = in_map_found q (ap s.conn_map (here ∙ is_h) ∙ found ∙ ap some eq) in
            let b : bump p extra q ≡ suc (extra p) =
              ap (bump p extra) (sym eq) ∙ bump_self p extra in
            let x = ap extra eq in
            let own = (==_iff c.handle d.handle).1 (sym here) in
            record { exact = rw own (omega arith); alive = k.alive }
        | inr e ↦
            let b = bump_ne p extra q e in
            elim (Bool-cases (c.handle == d.handle)) [
              | inl f ↦
                  let at_h = ap s.conn_map (sym ((==_iff c.handle d.handle).0 f) ∙ is_h) ∙ found in
                  let zero_there : in_map q (s.conn_map d.handle) ≡ 0 = rw (at_h, e) refl in
                  record { exact = rw (f, b) (omega (arith, exact, zero_there)); alive = k.alive }
              | inr f ↦ record { exact = rw (f, b) exact; alive = k.alive }
            ]
      ];
  held = λ q there. elim (Bool-cases (p == q)) [
    | inl e ↦ record { conn = c; at = ap s.objects (sym ((==_iff p q).0 e)) ∙ its }
    | inr e ↦
        let same = bump_ne p extra q e in
        let k = ok.held q (omega arith) in record { conn = k.conn; at = k.at }
  ];
}

-- `close` is such a handler.
pub close_found-Keeps : Keeps close_found
unfolding Keeps close_found
close_found-Keeps extra h p s ok some_held found =
    let m = ok.mapped h p found in
    let erased : Conns = record s { conn_map = update (m.conn).handle none s.conn_map } in
    rw (m.at)
      (let_loose_lem extra p erased (erased-AreConns extra h p s m.conn ok found m.at m.its_handle))

handle_msg-Keeps : (v : Handlers) (msg : Msg) → AllKeep v → Keeps (handle_msg v msg)
unfolding Keeps
handle_msg-Keeps v msg_confirm all = all.confirms
handle_msg-Keeps v msg_read all = all.reads
handle_msg-Keeps v msg_write all = all.writes
handle_msg-Keeps v msg_close all = all.closes
handle_msg-Keeps v msg_connect all = λ extra h p s ok some_held found. (s, refl, ok)
handle_msg-Keeps v msg_timer all = λ extra h p s ok some_held found. (s, refl, ok)

-- Where every handler of a connection of the map returns with every count exactly the references held and
-- that of the map, so does the callback, for any message and any handle, with the references held as
-- before: it uses no connection that was deleted, and gives back the reference that it took.
pub imconn_callback_lem :
    (v : Handlers) (has_data : Bool) (msg : Msg) (handle : ℕ) (extra : ℕ → ℕ) (s : Conns)
    → AllKeep v
    → AreConns extra s
    → (t : Conns) × (imconn_callback v has_data msg handle s ≡ some t) × AreConns extra t
unfolding imconn_callback Keeps
imconn_callback_lem v false msg handle extra s all ok = (s, refl, ok)
imconn_callback_lem v true msg handle extra s all ok = found (s.conn_map handle) refl
  where
    found :
        (o : Option ℕ)
        → s.conn_map handle ≡ o
        → (t : Conns) × (on_found v msg o s ≡ some t) × AreConns extra t
    found none e = (s, refl, ok)
    found (some p) e =
        let (s1, grasps, ok1, same) = grasp_lem extra handle p s ok e in
        let (s2, handles, ok2) =
          handle_msg-Keeps v msg all (bump p extra) handle p s1 ok1
            (let b = bump_self p extra in omega arith) ((λ i. same i handle) ∙ e) in
        let (s3, looses, ok3) = let_loose_lem extra p s2 ok2 in
        (s3, rw (grasps, handles, looses) refl, ok3)
