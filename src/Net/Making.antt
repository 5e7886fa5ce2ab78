-- ===== src/Net/Making.antt =====
-- What creating a socket and inserting it do to the references.
use postfix_edm.Prelude.{
  ℕ, ◌≤◌, ◌<◌, ◌≡◌, sym, ap, ◌∙◌, none, some, ◌==◌, arith, inl, inr, Bool-cases, Option-cases,
  ==_iff, ltb, ltb→lt,
}
use postfix_edm.Net.{BaseSocket, new_socket, Net, update, make_socket, add_base_socket}
use postfix_edm.Net.Counts.{IsNet, IsMapped, IsHeld, bump, bump_self, none≢some, held_at}
use postfix_edm.Net.Balance.{bump_other}
use postfix_edm.Net.Closing.{update_other, update_hit, some_inj, IsNet-less}

-- The reference that is held becomes that of the map. (Where another socket has the handle, it is lost.)
pub IsNet-add_base_socket :
    {extra : ℕ → ℕ} {net : Net} {s : BaseSocket} (h p : ℕ)
    → IsNet (bump p extra) net
    → net.heap p ≡ some s
    → s.fd ≡ some h
    → IsNet extra (add_base_socket p (some h) net)
unfolding add_base_socket
IsNet-add_base_socket {extra} {net} {s} h p net_ok at fd = elim (Option-cases (net.socket_map h)) [
  | inr (q, found) ↦ rw (add_base_socket, found) (IsNet-less p net_ok)
  | inl missing ↦
      rw (add_base_socket, missing) record { mapped = mapped'; held = held'; fresh = net_ok.fresh }
]
  where
    less : IsNet extra net
    less = IsNet-less p net_ok

    after : Net
    after = record net { socket_map = update h (some p) net.socket_map }

    mapped' : (j q : ℕ) → after.socket_map j ≡ some q → IsMapped extra after j q
    mapped' j q found = elim (Bool-cases (h == j)) [
      | inl e ↦
          let same : p ≡ q = some_inj (sym (update_hit h (some p) net.socket_map j e) ∙ found) in
          record {
            socket = s;
            at = sym (ap net.heap same) ∙ at;
            handle = fd ∙ ap some ((==_iff h j).0 e);
            counted = omega (arith, held_at p net_ok at, bump_self p extra, ap extra same);
          }
      | inr e ↦
          let m : IsMapped extra net j q =
            less.mapped j q (sym (update_other h (some p) net.socket_map j e) ∙ found) in
          record { socket = m.socket; at = m.at; handle = m.handle; counted = m.counted }
    ]

    held' : (q : ℕ) → 0 < extra q → IsHeld extra after q
    held' q pos =
        let k : IsHeld extra net q = less.held q pos in
        record { socket = k.socket; at = k.at; counted = k.counted }

-- A new socket has one reference, which is held, and no handle.
pub IsNet-make_socket :
    {extra : ℕ → ℕ} {net : Net} → IsNet extra net → IsNet (bump net.next extra) (make_socket net).1
unfolding make_socket
IsNet-make_socket {extra} {net} net_ok = record { mapped = mapped'; held = held'; fresh = fresh' }
  where
    after : Net
    after = (make_socket net).1

    free : net.heap net.next ≡ none
    free = net_ok.fresh net.next (omega arith)

    unheld : extra net.next ≡ 0
    unheld = elim (Bool-cases (ltb 0 (extra net.next))) [
      | inl e ↦ absurd (none≢some free (net_ok.held net.next (ltb→lt 0 (extra net.next) e)).at)
      | inr e ↦ ground arith
    ]

    mapped' : (h q : ℕ) → after.socket_map h ≡ some q → IsMapped (bump net.next extra) after h q
    mapped' h q found =
        let m : IsMapped extra net h q = net_ok.mapped h q found in
        elim (Bool-cases (net.next == q)) [
          | inl e ↦ absurd (none≢some free (ap net.heap ((==_iff net.next q).0 e) ∙ m.at))
          | inr e ↦ record {
            socket = m.socket;
            at = update_other net.next (some new_socket) net.heap q e ∙ m.at;
            handle = m.handle;
            counted = rw (bump_other net.next extra q e) m.counted;
          }
        ]

    held' : (q : ℕ) → 0 < bump net.next extra q → IsHeld (bump net.next extra) after q
    held' q pos = elim (Bool-cases (net.next == q)) [
      | inl e ↦ record {
        socket = new_socket;
        at = update_hit net.next (some new_socket) net.heap q e;
        counted = omega (
          arith,
          unheld,
          ap (bump net.next extra) ((==_iff net.next q).0 e),
          bump_self net.next extra,
        );
      }
      | inr e ↦
          let k : IsHeld extra net q =
            net_ok.held q (rw (sym (bump_other net.next extra q e)) pos) in
          record {
            socket = k.socket;
            at = update_other net.next (some new_socket) net.heap q e ∙ k.at;
            counted = rw (bump_other net.next extra q e) k.counted;
          }
    ]

    fresh' : (q : ℕ) → after.next ≤ q → after.heap q ≡ none
    fresh' q new = elim (Bool-cases (net.next == q)) [
      | inl e ↦ absurd (omega (arith, new, (==_iff net.next q).0 e))
      | inr e ↦
          update_other net.next (some new_socket) net.heap q e ∙ net_ok.fresh q (omega (arith, new))
    ]
