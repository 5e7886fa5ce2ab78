-- ===== src/Net/Balance.antt =====
-- What taking and dropping a reference, the map and the creation of a socket do to the references.
use postfix_edm.Prelude.{
  ℕ, suc, ◌+◌, ◌-◌, ◌≤◌, ◌<◌, ◌≡◌, refl, sym, ap, Option, none, some, false, ◌==◌, arith, inl, inr,
  Bool-cases, ==_iff,
}
use postfix_edm.Net.{
  BaseSocket, Net, put_socket, delete_socket, add_ref, release_ref, find_base_socket,
}
use postfix_edm.Net.Counts.{
  IsNet, IsMapped, IsHeld, bump, bump_self, mapped_at, held_at, IsNet-put_socket,
}

-- A run that ends, in a state where a predicate holds of what it returns.
pub record Ends {ℓ κ} {A : Type ℓ} (P : A → Type κ) (run : Option A) : Type (ℓ ⊔ κ) where
  pub result : A
  pub returns : run ≡ some result
  pub holds : P result

pub ends {ℓ κ} : {A : Type ℓ} {P : A → Type κ} (a : A) → P a → Ends P (some a)
ends a h = record { result = a; returns = refl; holds = h }

pub bump_other : (p : ℕ) (extra : ℕ → ℕ) (q : ℕ) → (p == q) ≡ false → bump p extra q ≡ extra q
bump_other p extra q e = rw e refl

-- A socket with one reference, which is held, is deleted.
pub IsNet-delete_socket :
    {extra : ℕ → ℕ} {net : Net} {s : BaseSocket} (p : ℕ)
    → IsNet (bump p extra) net
    → net.heap p ≡ some s
    → s.ref_count ≡ 1
    → IsNet extra (delete_socket p net)
IsNet-delete_socket {extra} {net} {s} p net_ok at last = record {
  mapped = mapped';
  held = held';
  fresh = fresh';
}
  where
    mapped' : (h q : ℕ) → net.socket_map h ≡ some q → IsMapped extra (delete_socket p net) h q
    mapped' h q found = elim (Bool-cases (p == q)) [
      | inl e ↦
          let known : (s.fd ≡ some h) × (bump p extra p < s.ref_count) =
            mapped_at h p q net_ok at found ((==_iff p q).0 e) in
          absurd (omega (arith, known.1, last, bump_self p extra))
      | inr e ↦
          let m : IsMapped (bump p extra) net h q = net_ok.mapped h q found in
          record {
            socket = m.socket;
            at = rw e m.at;
            handle = m.handle;
            counted = rw (sym (bump_other p extra q e)) m.counted;
          }
    ]

    held' : (q : ℕ) → 0 < extra q → IsHeld extra (delete_socket p net) q
    held' q pos = elim (Bool-cases (p == q)) [
      | inl e ↦ absurd (
          omega
            (arith, pos, held_at p net_ok at, last, bump_self p extra, ap extra ((==_iff p q).0 e)))
      | inr e ↦
          let k : IsHeld (bump p extra) net q = net_ok.held q (rw (bump_other p extra q e) pos) in
          record {
            socket = k.socket;
            at = rw e k.at;
            counted = rw (sym (bump_other p extra q e)) k.counted;
          }
    ]

    fresh' : (q : ℕ) → net.next ≤ q → (delete_socket p net).heap q ≡ none
    fresh' q new = elim (Bool-cases (p == q)) [
      | inl e ↦ rw e refl
      | inr e ↦ rw e (net_ok.fresh q new)
    ]

-- A reference that is held is dropped.
pub release_ref_lem :
    {extra : ℕ → ℕ} {net : Net} (p : ℕ)
    → IsNet (bump p extra) net
    → Ends (λ net'. (net'.socket_map ≡ net.socket_map) × IsNet extra net') (release_ref p net)
unfolding release_ref
release_ref_lem {extra} {net} p net_ok =
    let k : IsHeld (bump p extra) net p = net_ok.held p (rw (bump_self p extra) (omega arith)) in
    let count : suc (extra p) ≤ k.socket.ref_count = omega (arith, k.counted, bump_self p extra) in
    elim (Bool-cases (k.socket.ref_count == 1)) [
      | inl e ↦ record {
        result = delete_socket p net;
        returns = rw (k.at, e) refl;
        holds = (refl, IsNet-delete_socket p net_ok k.at ((==_iff k.socket.ref_count 1).0 e));
      }
      | inr e ↦ record {
        result = put_socket p (record k.socket { ref_count = k.socket.ref_count - 1 }) net;
        returns = rw (k.at, e) refl;
        holds = (
          refl,
          IsNet-put_socket p (record k.socket { ref_count = k.socket.ref_count - 1 }) net_ok k.at
              (inl refl) (λ q ne. sym (bump_other p extra q ne))
              (omega (arith, count, bump_self p extra)),
        );
      }
    ]

-- A socket that the map finds is found, with a reference more, which is held.
pub find_base_socket_lem :
    {extra : ℕ → ℕ} {net : Net} (h p : ℕ)
    → IsNet extra net
    → net.socket_map h ≡ some p
    → Ends
        (λ (r : Option ℕ × Net).
          (r.0 ≡ some p) × (r.1.socket_map h ≡ some p) × IsNet (bump p extra) r.1)
        (find_base_socket h net)
unfolding find_base_socket add_ref
find_base_socket_lem {extra} {net} h p net_ok found =
    let m : IsMapped extra net h p = net_ok.mapped h p found in
    let s' : BaseSocket = record m.socket { ref_count = m.socket.ref_count + 1 } in
    record {
      result = (some p, put_socket p s' net);
      returns = rw (find_base_socket, found, m.at) refl;
      holds = (
        refl,
        found,
        IsNet-put_socket p s' net_ok m.at (inl refl) (λ q ne. bump_other p extra q ne)
            (omega (arith, bump_self p extra)),
      );
    }

pub find_base_socket_missing :
    {net : Net} (h : ℕ) → net.socket_map h ≡ none → find_base_socket h net ≡ some (none, net)
unfolding find_base_socket
find_base_socket_missing h missing = rw (find_base_socket, missing) refl
