-- ===== src/Net/Closing.antt =====
-- What closing a socket does to the references.
use postfix_edm.Prelude.{
  ℕ, ◌≤◌, ◌<◌, ◌≡◌, refl, sym, ap, ◌∙◌, Option, none, some, true, false, ◌==◌, arith, inl, inr,
  Bool-cases, ==_iff,
}
use postfix_edm.Net.{Net, update, release_ref, remove_base_socket}
use postfix_edm.Net.BaseSockets.{close}
use postfix_edm.Net.Counts.{
  IsNet, IsMapped, IsHeld, bump, bump_self, none≢some, mapped_at, update_self,
}
use postfix_edm.Net.Balance.{Ends, bump_other, release_ref_lem}

pub bump-le : (p : ℕ) (extra : ℕ → ℕ) (q : ℕ) → extra q ≤ bump p extra q
bump-le p extra q = ground arith

pub update_other {ℓ} :
    {A : Type ℓ} (k : ℕ) (v : A) (f : ℕ → A) (j : ℕ) → (k == j) ≡ false → update k v f j ≡ f j
update_other k v f j e = rw e refl

pub update_hit {ℓ} :
    {A : Type ℓ} (k : ℕ) (v : A) (f : ℕ → A) (j : ℕ) → (k == j) ≡ true → update k v f j ≡ v
update_hit k v f j e = rw e refl

pub some_inj : {a b : ℕ} → some a ≡ some b → a ≡ b
some_inj e = cc

one_handle : {fd : Option ℕ} {h j : ℕ} → fd ≡ some h → fd ≡ some j → (h == j) ≡ false → ⊥
one_handle {fd} {h} {j} e f ne = let same : h ≡ j = some_inj (sym e ∙ f) in ground arith

-- Holding a reference less.
pub IsNet-less : {extra : ℕ → ℕ} {net : Net} (p : ℕ) → IsNet (bump p extra) net → IsNet extra net
IsNet-less {extra} {net} p net_ok = record { mapped = mapped'; held = held'; fresh = net_ok.fresh }
  where
    mapped' : (h q : ℕ) → net.socket_map h ≡ some q → IsMapped extra net h q
    mapped' h q found =
        let m : IsMapped (bump p extra) net h q = net_ok.mapped h q found in
        record {
          socket = m.socket;
          at = m.at;
          handle = m.handle;
          counted = omega (arith, m.counted, bump-le p extra q);
        }

    held' : (q : ℕ) → 0 < extra q → IsHeld extra net q
    held' q pos =
        let k : IsHeld (bump p extra) net q =
          net_ok.held q (omega (arith, pos, bump-le p extra q)) in
        record {
          socket = k.socket;
          at = k.at;
          counted = omega (arith, k.counted, bump-le p extra q);
        }

remove_base_socket_self :
    (h : ℕ) (net : Net) → (remove_base_socket (some h) net).socket_map h ≡ none
unfolding remove_base_socket
remove_base_socket_self h net = update_self h none net.socket_map

-- The reference of the map becomes one that is held.
pub IsNet-remove_base_socket :
    {extra : ℕ → ℕ} {net : Net} (h p : ℕ)
    → IsNet extra net
    → net.socket_map h ≡ some p
    → IsNet (bump p extra) (remove_base_socket (some h) net)
unfolding remove_base_socket
IsNet-remove_base_socket {extra} {net} h p net_ok found = record {
  mapped = mapped';
  held = held';
  fresh = net_ok.fresh;
}
  where
    after : Net
    after = record net { socket_map = update h none net.socket_map }

    its : IsMapped extra net h p
    its = net_ok.mapped h p found

    mapped' : (j q : ℕ) → after.socket_map j ≡ some q → IsMapped (bump p extra) after j q
    mapped' j q at = elim (Bool-cases (h == j)) [
      | inl e ↦ absurd (none≢some (update_hit h none net.socket_map j e) at)
      | inr e ↦
          let at' : net.socket_map j ≡ some q = sym (update_other h none net.socket_map j e) ∙ at in
          elim (Bool-cases (p == q)) [
            | inl same ↦
                let known : (its.socket.fd ≡ some j) × (extra p < its.socket.ref_count) =
                  mapped_at j p q net_ok its.at at' ((==_iff p q).0 same) in
                absurd (one_handle its.handle known.0 e)
            | inr ne ↦
                let m : IsMapped extra net j q = net_ok.mapped j q at' in
                record {
                  socket = m.socket;
                  at = m.at;
                  handle = m.handle;
                  counted = rw (bump_other p extra q ne) m.counted;
                }
          ]
    ]

    held' : (q : ℕ) → 0 < bump p extra q → IsHeld (bump p extra) after q
    held' q pos = elim (Bool-cases (p == q)) [
      | inl e ↦
          let same : p ≡ q = (==_iff p q).0 e in
          record {
            socket = its.socket;
            at = sym (ap net.heap same) ∙ its.at;
            counted = omega (arith, its.counted, bump_self p extra, ap (bump p extra) same);
          }
      | inr e ↦
          let k : IsHeld extra net q = net_ok.held q (rw (sym (bump_other p extra q e)) pos) in
          record { socket = k.socket; at = k.at; counted = rw (bump_other p extra q e) k.counted }
    ]

-- `Close` of a socket that the map finds: it is found no more, and the reference of the map is dropped.
pub close_lem :
    {extra : ℕ → ℕ} {net : Net} (h p : ℕ)
    → IsNet extra net
    → net.socket_map h ≡ some p
    → Ends (λ net'. (net'.socket_map h ≡ none) × IsNet extra net') (close p net)
unfolding close
close_lem {extra} {net} h p net_ok found =
    let its : IsMapped extra net h p = net_ok.mapped h p found in
    let ran : Ends
        (λ net'.
          (net'.socket_map ≡ (remove_base_socket (some h) net).socket_map) × IsNet extra net')
        (release_ref p (remove_base_socket (some h) net)) =
      release_ref_lem p (IsNet-remove_base_socket h p net_ok found) in
    record {
      result = ran.result;
      returns = rw (its.at, its.handle) ran.returns;
      holds =
          (ap (λ (f : ℕ → Option ℕ). f h) ran.holds.0 ∙ remove_base_socket_self h net, ran.holds.1);
    }
