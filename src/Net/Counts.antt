-- ===== src/Net/Counts.antt =====
-- The references to the sockets: those that are held, and that of the map.
use postfix_edm.Prelude.{
  ℕ, suc, ◌+◌, ◌≤◌, ◌<◌, ◌≡◌, refl, sym, ap, ◌∙◌, Option, none, some, false, ◌==◌, if◌then◌else◌,
  arith, ◌⊎◌, inl, inr, Bool-cases, ==_iff, ltb, ltb→lt,
}
use postfix_edm.Net.{BaseSocket, Net, update, put_socket}

-- A socket that the map finds is in memory, has the handle, and counts a reference more than those held.
pub record IsMapped (extra : ℕ → ℕ) (net : Net) (h p : ℕ) : Type 0 where
  pub socket : BaseSocket
  pub at : net.heap p ≡ some socket
  pub handle : socket.fd ≡ some h
  pub counted : extra p < socket.ref_count

-- A socket to which references are held counts them.
pub record IsHeld (extra : ℕ → ℕ) (net : Net) (p : ℕ) : Type 0 where
  pub socket : BaseSocket
  pub at : net.heap p ≡ some socket
  pub counted : extra p ≤ socket.ref_count

-- `extra` says how many references are held to the socket at an address.
pub record IsNet (extra : ℕ → ℕ) (net : Net) : Type 0 where
  pub mapped : (h p : ℕ) → net.socket_map h ≡ some p → IsMapped extra net h p
  pub held : (p : ℕ) → 0 < extra p → IsHeld extra net p
  pub fresh : (p : ℕ) → net.next ≤ p → net.heap p ≡ none

-- A reference more.
abbrev pub bump : ℕ → (ℕ → ℕ) → ℕ → ℕ
bump p extra q = if p == q then suc (extra q) else extra q

pub bump_self : (p : ℕ) (extra : ℕ → ℕ) → bump p extra p ≡ suc (extra p)
bump_self p extra = ground arith

pub update_self {ℓ} : {A : Type ℓ} (k : ℕ) (v : A) (f : ℕ → A) → update k v f k ≡ v
update_self k v f = ground arith

pub none≢some {ℓ} : {A : Type ℓ} {a : A} {o : Option A} → o ≡ none → o ≡ some a → ⊥
none≢some e f = cc

pub one_socket :
    {heap_p heap_q : Option BaseSocket} {s s' : BaseSocket}
    → heap_p ≡ heap_q
    → heap_q ≡ some s'
    → heap_p ≡ some s
    → s' ≡ s
one_socket e f g = cc

-- The same of the socket that is known to stand at `p`.
pub mapped_at :
    {extra : ℕ → ℕ} {net : Net} {s : BaseSocket} (h p q : ℕ)
    → IsNet extra net
    → net.heap p ≡ some s
    → net.socket_map h ≡ some q
    → p ≡ q
    → (s.fd ≡ some h) × (extra p < s.ref_count)
mapped_at {extra} {net} {s} h p q net_ok at found same =
    let m : IsMapped extra net h q = net_ok.mapped h q found in
    let one : m.socket ≡ s = one_socket (ap net.heap same) m.at at in
    (
      sym (ap BaseSocket.fd one) ∙ m.handle,
      omega (arith, m.counted, ap extra same, ap BaseSocket.ref_count one),
    )

pub held_at :
    {extra : ℕ → ℕ} {net : Net} {s : BaseSocket} (p : ℕ)
    → IsNet extra net
    → net.heap p ≡ some s
    → extra p ≤ s.ref_count
held_at {extra} {net} {s} p net_ok at = elim (Bool-cases (ltb 0 (extra p))) [
  | inl e ↦
      let k : IsHeld extra net p = net_ok.held p (ltb→lt 0 (extra p) e) in
      let one : k.socket ≡ s = one_socket refl k.at at in
      omega (arith, k.counted, ap BaseSocket.ref_count one)
  | inr e ↦ ground arith
]

-- The socket at `p` is written with its handle, and as many references more as are held more.
pub IsNet-put_socket :
    {extra extra' : ℕ → ℕ} {net : Net} {s : BaseSocket} (p : ℕ) (s' : BaseSocket)
    → IsNet extra net
    → net.heap p ≡ some s
    → (s'.fd ≡ s.fd) ⊎ (s.fd ≡ none)
    → ((q : ℕ) → (p == q) ≡ false → extra' q ≡ extra q)
    → s'.ref_count + extra p ≡ s.ref_count + extra' p
    → IsNet extra' (put_socket p s' net)
IsNet-put_socket {extra} {extra'} {net} {s} p s' net_ok at fd others sum = record {
  mapped = mapped';
  held = held';
  fresh = fresh';
}
  where
    mapped' : (h q : ℕ) → net.socket_map h ≡ some q → IsMapped extra' (put_socket p s' net) h q
    mapped' h q found = elim (Bool-cases (p == q)) [
      | inl e ↦
          let same : p ≡ q = (==_iff p q).0 e in
          let known : (s.fd ≡ some h) × (extra p < s.ref_count) =
            mapped_at h p q net_ok at found same in
          record {
            socket = s';
            at = rw e refl;
            handle = elim fd [ inl f ↦ f ∙ known.0 | inr f ↦ absurd (none≢some f known.0) ];
            counted = omega (arith, known.1, sum, ap extra' same);
          }
      | inr e ↦
          let m : IsMapped extra net h q = net_ok.mapped h q found in
          record {
            socket = m.socket;
            at = rw e m.at;
            handle = m.handle;
            counted = rw (others q e) m.counted;
          }
    ]

    held' : (q : ℕ) → 0 < extra' q → IsHeld extra' (put_socket p s' net) q
    held' q pos = elim (Bool-cases (p == q)) [
      | inl e ↦ record {
        socket = s';
        at = rw e refl;
        counted = omega (arith, held_at p net_ok at, sum, ap extra' ((==_iff p q).0 e));
      }
      | inr e ↦
          let k : IsHeld extra net q = net_ok.held q (rw (sym (others q e)) pos) in
          record { socket = k.socket; at = rw e k.at; counted = rw (others q e) k.counted }
    ]

    fresh' : (q : ℕ) → net.next ≤ q → (put_socket p s' net).heap q ≡ none
    fresh' q new = elim (Bool-cases (p == q)) [
      | inl e ↦ absurd (none≢some (net_ok.fresh q new) (sym (ap net.heap ((==_iff p q).0 e)) ∙ at))
      | inr e ↦ rw e (net_ok.fresh q new)
    ]
