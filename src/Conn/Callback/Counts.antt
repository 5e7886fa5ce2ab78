-- ===== src/Conn/Callback/Counts.antt =====
-- The references to the connections: those that are held, and that of the map.
use postfix_edm.Prelude.{
  ℕ, ◌+◌, ◌-◌, ◌<◌, ◌≡◌, refl, sym, ap, ◌∙◌, Option, none, some, false, ◌==◌, ==_iff, inl, inr,
  Bool-cases, arith, if◌then◌else◌,
}
use mathlib.Core.Path.{subst}
use postfix_edm.Net.Counts.{bump, bump_self, update_self}
use postfix_edm.Conn.Callback.{Conn, Conns, put_conn, grasp, let_loose}

-- The reference of the map to the connection at an address, if what the map finds is there.
abbrev pub in_map : ℕ → Option ℕ → ℕ
in_map p none = 0
in_map p (some q) = if q == p then 1 else 0

-- A connection of the map is in memory and has the handle.
pub record IsEntry (s : Conns) (h p : ℕ) : Type 0 where
  pub conn : Conn
  pub at : s.objects p ≡ some conn
  pub its_handle : conn.handle ≡ h

-- A connection counts the references that are held and that of the map, and no others.
pub record IsCounted (extra : ℕ → ℕ) (s : Conns) (p : ℕ) (c : Conn) : Type 0 where
  pub exact : c.ref_count ≡ extra p + in_map p (s.conn_map c.handle)
  pub alive : 0 < c.ref_count

-- A connection to which references are held is in memory.
pub record IsGrasped (s : Conns) (p : ℕ) : Type 0 where
  pub conn : Conn
  pub at : s.objects p ≡ some conn

-- `extra` says how many references are held besides that of the map.
pub record AreConns (extra : ℕ → ℕ) (s : Conns) : Type 0 where
  pub mapped : (h p : ℕ) → s.conn_map h ≡ some p → IsEntry s h p
  pub counted : (p : ℕ) (c : Conn) → s.objects p ≡ some c → IsCounted extra s p c
  pub held : (p : ℕ) → 0 < extra p → IsGrasped s p

pub one_conn : {o : Option Conn} {c d : Conn} → o ≡ some c → o ≡ some d → c ≡ d
one_conn e f = cc

pub bump_ne : (p : ℕ) (extra : ℕ → ℕ) (q : ℕ) → (p == q) ≡ false → bump p extra q ≡ extra q
bump_ne p extra q e = rw e refl

pub in_map_found : (p : ℕ) {o : Option ℕ} → o ≡ some p → in_map p o ≡ 1
in_map_found p e = rw (e, (==_iff p p).1 refl) refl

-- A change of one connection.
AreConns-put_conn :
    (extra extra' : ℕ → ℕ) (p : ℕ) (o : Option Conn) (s : Conns)
    → AreConns extra s
    → ((q : ℕ) → (p == q) ≡ false → extra' q ≡ extra q)
    → ((h : ℕ) → s.conn_map h ≡ some p → IsEntry (put_conn p o s) h p)
    → ((c : Conn) → o ≡ some c → IsCounted extra' s p c)
    → (0 < extra' p → IsGrasped (put_conn p o s) p)
    → AreConns extra' (put_conn p o s)
AreConns-put_conn extra extra' p o s ok same entry count grasped = record {
  mapped = λ h q found. elim (Bool-cases (p == q)) [
    | inl e ↦
        let eq = (==_iff p q).0 e in
        subst (λ x. IsEntry (put_conn p o s) h x) eq (entry h (found ∙ ap some (sym eq)))
    | inr e ↦
        let m = ok.mapped h q found in
        record { conn = m.conn; at = rw e m.at; its_handle = m.its_handle }
  ];
  counted = λ q c at. elim (Bool-cases (p == q)) [
    | inl e ↦
        let eq = (==_iff p q).0 e in
        let k = count c (sym (rw e refl) ∙ at) in
        let k' = subst (λ x. IsCounted extra' s x c) eq k in
        record { exact = k'.exact; alive = k'.alive }
    | inr e ↦
        let k = ok.counted q c (sym (rw e refl) ∙ at) in
        record {
          exact = k.exact ∙ ap (λ n. n + in_map q (s.conn_map c.handle)) (sym (same q e));
          alive = k.alive;
        }
  ];
  held = λ q some_held. elim (Bool-cases (p == q)) [
    | inl e ↦
        let eq = (==_iff p q).0 e in
        let n : extra' p ≡ extra' q = ap extra' eq in
        subst (λ x. IsGrasped (put_conn p o s) x) eq (grasped (omega arith))
    | inr e ↦
        let n = same q e in
        let k = ok.held q (omega arith) in record { conn = k.conn; at = rw e k.at }
  ];
}

put_conn_self : (p : ℕ) (o : Option Conn) (s : Conns) → (put_conn p o s).objects p ≡ o
put_conn_self p o s = update_self p o s.objects

pub grasp_lem :
    (extra : ℕ → ℕ) (h p : ℕ) (s : Conns)
    → AreConns extra s
    → s.conn_map h ≡ some p
    → (t : Conns) × (grasp p s ≡ some t) × AreConns (bump p extra) t × (t.conn_map ≡ s.conn_map)
unfolding grasp
grasp_lem extra h p s ok found =
    let m = ok.mapped h p found in
    let b = bump_self p extra in
    let k = ok.counted p m.conn m.at in
    let exact = k.exact in
    let more : Conn = record (m.conn) { ref_count = (m.conn).ref_count + 1 } in
    let good : IsCounted (bump p extra) s p more = record {
      exact = omega arith;
      alive = omega arith;
    } in
    (
      put_conn p (some more) s,
      rw (m.at) refl,
      AreConns-put_conn extra (bump p extra) p (some more) s ok (λ q e. bump_ne p extra q e)
          (λ k other.
            let n = ok.mapped k p other in
            record {
              conn = more;
              at = put_conn_self p (some more) s;
              its_handle = ap Conn.handle (one_conn m.at n.at) ∙ n.its_handle;
            })
          (λ c e. subst (IsCounted (bump p extra) s p) (one_conn refl e) good)
          (λ some_held. record { conn = more; at = put_conn_self p (some more) s }),
      refl,
    )

pub let_loose_lem :
    (extra : ℕ → ℕ) (p : ℕ) (s : Conns)
    → AreConns (bump p extra) s
    → (t : Conns) × (let_loose p s ≡ some t) × AreConns extra t
unfolding let_loose
let_loose_lem extra p s ok =
    let b = bump_self p extra in
    let g = ok.held p (omega arith) in
    let k = ok.counted p g.conn g.at in
    let exact = k.exact in
    let same : (q : ℕ) → (p == q) ≡ false → extra q ≡ bump p extra q =
      λ q e. sym (bump_ne p extra q e) in
    elim (Bool-cases ((g.conn).ref_count == 1)) [
      | inl e ↦
          let last : (g.conn).ref_count ≡ 1 = (==_iff (g.conn).ref_count 1).0 e in
          (
            put_conn p none s,
            rw (g.at, e) refl,
            AreConns-put_conn (bump p extra) extra p none s ok same
                (λ h found.
                  let n = ok.mapped h p found in
                  let one = one_conn n.at g.at in
                  let there = ap s.conn_map (sym (ap Conn.handle one) ∙ n.its_handle) ∙ found in
                  let two = in_map_found p there in absurd (omega arith))
                (λ c e. absurd (cc)) (λ some_held. absurd (omega arith)),
          )
      | inr e ↦
          let less : Conn = record (g.conn) { ref_count = (g.conn).ref_count - 1 } in
          let alive = k.alive in
          let good : IsCounted extra s p less = record {
            exact = omega arith;
            alive = ground arith;
          } in
          (
            put_conn p (some less) s,
            rw (g.at, e) refl,
            AreConns-put_conn (bump p extra) extra p (some less) s ok same
                (λ h found.
                  let n = ok.mapped h p found in
                  let one = one_conn n.at g.at in
                  record {
                    conn = less;
                    at = put_conn_self p (some less) s;
                    its_handle = sym (ap Conn.handle one) ∙ n.its_handle;
                  })
                (λ c e. subst (IsCounted extra s p) (one_conn refl e) good)
                (λ some_held. record { conn = less; at = put_conn_self p (some less) s }),
          )
    ]
