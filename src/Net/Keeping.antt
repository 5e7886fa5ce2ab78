-- ===== src/Net/Keeping.antt =====
-- The functions of netlib on the references: what is found is released.
use postfix_edm.Prelude.{
  ℕ, ◌+◌, ◌-◌, ◌≡◌, refl, sym, ap, ◌∙◌, List, Option, none, some, Bool, true, false, ◌&&◌, ◌==◌,
  if◌then◌else◌, arith, inl, inr, Bool-cases, Option-cases, ==_iff,
}
use mathlib.Core.Path.{fun_ext, subst}
use postfix_edm.Prelude.Int.{ℤ}
use postfix_edm.Prelude.Memory.{◌>>=◌}
use postfix_edm.Net.{
  BaseSocket, new_socket, Net, update, put_socket, delete_socket, make_socket, release_ref,
  find_base_socket, add_ref, remove_base_socket,
}
use postfix_edm.Net.BaseSockets.{
  Code, netlib_ok, netlib_error, ListenCalls, ConnectCalls, listen, connect, send, socket_error,
  is_connected, send_result, close,
}
use postfix_edm.Net.Netlib.{
  netlib_listen, netlib_connect, with_socket, netlib_send, close_ok, netlib_close,
}
use postfix_edm.Net.Counts.{IsNet, IsMapped, bump, IsNet-put_socket, update_self, mapped_at}
use postfix_edm.Net.Balance.{
  Ends, ends, release_ref_lem, find_base_socket_lem, find_base_socket_missing, IsNet-delete_socket,
}
use postfix_edm.Net.Closing.{close_lem}
use postfix_edm.Net.Making.{IsNet-make_socket}
use postfix_edm.Net.Rounds.{then-Ends, IsNet-new}

module _ {A : Type 0} (missing : A) (use_it : ℕ → Net → Option (A × Net)) (handle : ℕ) where
  pub with_socket_lem :
      {extra : ℕ → ℕ} {net : Net} (P : A → (ℕ → Option ℕ) → Type 0)
      → IsNet extra net
      → (net.socket_map handle ≡ none → P missing net.socket_map)
      → ((p : ℕ) (net' : Net)
          → net.socket_map handle ≡ some p
          → net'.socket_map handle ≡ some p
          → IsNet (bump p extra) net'
          → Ends (λ r. P r.0 r.1.socket_map × IsNet (bump p extra) r.1) (use_it p net'))
      → Ends (λ r. P r.0 r.1.socket_map × IsNet extra r.1) (with_socket missing use_it handle net)
  unfolding with_socket
  with_socket_lem {extra} {net} P net_ok absent used = elim (Option-cases (net.socket_map handle)) [
    | inl none_there ↦
        rw (find_base_socket_missing {net = net} handle none_there)
          (record { result = (missing, net); returns = refl; holds = (absent none_there, net_ok) })
    | inr (p, found) ↦ then-Ends (find_base_socket_lem handle p net_ok found) (λ r ok. rw ok.0 (
        then-Ends (used p r.1 found ok.1 ok.2) (λ r' ok'.
          then-Ends (release_ref_lem p ok'.1) (λ last done. record {
            result = (r'.0, last);
            returns = refl;
            holds = (subst (λ m. P r'.0 m) (sym done.0) ok'.0, done.1);
          }))))
  ]

-- What netlib_close returns for a handle that the map finds and for another.
abbrev pub close_code : Option ℕ → Code
close_code none = netlib_error
close_code (some p) = netlib_ok

-- netlib_close keeps the counts above the references held.
pub netlib_close-IsNet :
    {extra : ℕ → ℕ} {net : Net} (handle : ℕ)
    → IsNet extra net
    → Ends
        (λ r.
          ((r.0 ≡ close_code (net.socket_map handle)) × (r.1.socket_map handle ≡ none))
          × IsNet extra r.1)
        (netlib_close handle net)
unfolding netlib_close close_ok
netlib_close-IsNet {extra} {net} handle net_ok =
    with_socket_lem netlib_error close_ok handle
      (λ ret m. (ret ≡ close_code (net.socket_map handle)) × (m handle ≡ none)) net_ok
      (λ absent. (rw absent refl, absent))
      (λ p net' found found' ok. then-Ends (close_lem handle p ok found') (λ last done. record {
        result = (netlib_ok, last);
        returns = refl;
        holds = ((rw found refl, done.0), done.1);
      }))

-- A new socket that is given up, whatever was written to it but its count.
IsNet-given_up :
    {extra : ℕ → ℕ} {net : Net} (s' : BaseSocket)
    → IsNet extra net
    → s'.ref_count ≡ 1
    → IsNet extra
        (delete_socket (make_socket net).0 (put_socket (make_socket net).0 s' (make_socket net).1))
unfolding make_socket
IsNet-given_up {extra} {net} s' net_ok one =
    IsNet-delete_socket net.next
      (IsNet-put_socket {extra' = bump net.next extra} net.next s' (IsNet-make_socket net_ok)
        (update_self net.next (some new_socket) net.heap) (inr refl) (λ q ne. refl)
        (omega (arith, one)))
      (update_self net.next (some s') (make_socket net).1.heap) one

pub netlib_listen_lem :
    {extra : ℕ → ℕ} {net : Net} (ip : List ℕ) (port callback callback_data : ℕ)
    (calls : ListenCalls)
    → IsNet extra net
    → Ends (λ r. IsNet extra r.1) (netlib_listen ip port callback callback_data calls net)
unfolding netlib_listen listen make_socket
netlib_listen_lem {extra} {net} ip port callback callback_data calls net_ok =
    rw (update_self net.next (some new_socket) net.heap) (elim (Option-cases calls.socket) [
      | inl e ↦ rw e (ends _ (IsNet-given_up _ net_ok refl))
      | inr (fd, e) ↦ elim (Bool-cases (calls.bound && calls.listens)) [
        | inl ok ↦ rw (e, ok) (ends _ (IsNet-new fd _ net_ok refl e))
        | inr failed ↦ rw (e, failed) (ends _ (IsNet-given_up _ net_ok refl))
      ]
    ])

pub netlib_connect_lem :
    {extra : ℕ → ℕ} {net : Net} (ip : List ℕ) (port callback callback_data : ℕ)
    (calls : ConnectCalls)
    → IsNet extra net
    → Ends (λ r. IsNet extra r.1) (netlib_connect ip port callback callback_data calls net)
unfolding netlib_connect connect make_socket
netlib_connect_lem {extra} {net} ip port callback callback_data calls net_ok =
    rw (update_self net.next (some new_socket) net.heap) (elim (Option-cases calls.socket) [
      | inl e ↦ rw e (ends _ (IsNet-given_up _ net_ok refl))
      | inr (fd, e) ↦ elim (Bool-cases calls.refused) [
        | inl failed ↦ rw (e, failed) (ends _ (IsNet-given_up _ net_ok refl))
        | inr ok ↦ rw (e, ok) (ends _ (IsNet-new fd _ net_ok refl e))
      ]
    ])

-- What is found and released again with no change between is as it was.
restored :
    {heap : ℕ → Option BaseSocket} {s : BaseSocket} (p : ℕ) (s' : BaseSocket)
    → heap p ≡ some s
    → update p (some (record s { ref_count = s.ref_count + 1 - 1 })) (update p (some s') heap)
      ≡ heap
restored {heap} {s} p s' at = fun_ext pointwise
  where
    count : s.ref_count + 1 - 1 ≡ s.ref_count
    count = omega arith

    pointwise :
        (q : ℕ)
        → update p (some (record s { ref_count = s.ref_count + 1 - 1 })) (update p (some s') heap) q
          ≡ heap q
    pointwise q = elim (Bool-cases (p == q)) [
      | inl e ↦ rw (e, count) (sym at ∙ ap heap ((==_iff p q).0 e))
      | inr e ↦ rw e refl
    ]

with_socket_same :
    {extra : ℕ → ℕ} {net : Net} {s : BaseSocket} {A : Type 0} (missing ret : A)
    (use_it : ℕ → Net → Option (A × Net)) (handle p : ℕ)
    → IsNet extra net
    → net.socket_map handle ≡ some p
    → net.heap p ≡ some s
    → ((net' : Net)
        → net'.heap p ≡ some (record s { ref_count = s.ref_count + 1 })
        → use_it p net' ≡ some (ret, net'))
    → with_socket missing use_it handle net ≡ some (ret, net)
unfolding with_socket find_base_socket add_ref release_ref
with_socket_same {net} {s} missing ret use_it handle p net_ok found at used =
    let s' : BaseSocket = record s { ref_count = s.ref_count + 1 } in
    let here : update p (some s') net.heap p ≡ some s' = update_self p (some s') net.heap in
    let counted = (mapped_at handle p p net_ok at found refl).1 in
    let many : (s.ref_count + 1 == 1) ≡ false = ground arith in
    rw (find_base_socket, found, at, used (put_socket p s' net) here, here, many)
      (ap (λ h. some (ret, record net { heap = h })) (restored p s' at))

-- A socket with a reference less.
abbrev pub one_less : BaseSocket → Option BaseSocket
one_less s = if s.ref_count == 1 then none else some (record s { ref_count = s.ref_count - 1 })

abbrev less_at : ℕ → Option BaseSocket → (ℕ → Option BaseSocket) → ℕ → Option BaseSocket
less_at p none heap = heap
less_at p (some s) heap = update p (one_less s) heap

abbrev closed_at : ℕ → Option ℕ → Net → Net
closed_at handle none net = net
closed_at handle (some p) net = record net {
  heap = less_at p (net.heap p) net.heap;
  socket_map = update handle none net.socket_map;
}

-- The sockets without a handle: its socket has a reference less, or is deleted with the last one, and nothing
-- else is different.
abbrev pub without : ℕ → Net → Net
without handle net = closed_at handle (net.socket_map handle) net

-- The socket that a handle finds.
abbrev pub socket_of : ℕ → Net → Option BaseSocket
socket_of handle net = net.socket_map handle >>= net.heap

-- What a caller of netlib_send is told.
abbrev pub told : Option BaseSocket → ℤ → Bool → ℤ
told none ret blocked = socket_error
told (some s) ret blocked = if is_connected s.state then send_result ret blocked else socket_error

pub netlib_send_lem :
    {extra : ℕ → ℕ} {net : Net} (handle : ℕ) (ret : ℤ) (blocked : Bool)
    → IsNet extra net
    → netlib_send handle ret blocked net ≡ some (told (socket_of handle net) ret blocked, net)
unfolding netlib_send with_socket send
netlib_send_lem {extra} {net} handle ret blocked net_ok =
    elim (Option-cases (net.socket_map handle)) [
      | inl missing ↦ rw (find_base_socket_missing {net = net} handle missing, missing) refl
      | inr (p, found) ↦
          let its : IsMapped extra net handle p = net_ok.mapped handle p found in
          rw (found, its.at)
            (with_socket_same socket_error _ (λ q. send q ret blocked) handle p net_ok found its.at
              (λ net' at. rw at refl))
    ]

-- A socket that is found, closed and released: of the three writes the last one counts.
closed_heap :
    (heap : ℕ → Option BaseSocket) (p : ℕ) (a b o : Option BaseSocket)
    → update p o (update p a (update p b heap)) ≡ update p o heap
closed_heap heap p a b o = fun_ext pointwise
  where
    pointwise : (q : ℕ) → update p o (update p a (update p b heap)) q ≡ update p o heap q
    pointwise q = elim (Bool-cases (p == q)) [ inl e ↦ rw e refl | inr e ↦ rw e refl ]

-- Where the counts cover the references held, netlib_close returns an error and changes nothing where the
-- map does not find the handle. Where it does, the handle is taken off the map, its socket has exactly one
-- reference less, and is deleted if that was the last one, and every other socket and handle is as it was.
pub netlib_close_lem :
    {extra : ℕ → ℕ} {net : Net} (handle : ℕ)
    → IsNet extra net
    → netlib_close handle net ≡ some (close_code (net.socket_map handle), without handle net)
unfolding netlib_close with_socket close_ok close find_base_socket add_ref release_ref
    remove_base_socket
netlib_close_lem {extra} {net} handle net_ok = elim (Option-cases (net.socket_map handle)) [
  | inl missing ↦ rw (find_base_socket, missing) refl
  | inr (p, found) ↦
      let its : IsMapped extra net handle p = net_ok.mapped handle p found in
      let s : BaseSocket = record its.socket { fd = some handle } in
      let s1 : BaseSocket = record s { ref_count = s.ref_count + 1 } in
      let s2 : BaseSocket = record s { ref_count = s.ref_count + 1 - 1 } in
      let old : BaseSocket = record its.socket { ref_count = its.socket.ref_count + 1 } in
      let here0 = update_self p (some old) net.heap in
      let f1 = update p (some s1) net.heap in
      let here1 : f1 p ≡ some s1 = update_self p (some s1) net.heap in
      let here2 : update p (some s2) f1 p ≡ some s2 = update_self p (some s2) f1 in
      let many : (s.ref_count + 1 == 1) ≡ false = let c = its.counted in ground arith in
      let back : s.ref_count + 1 - 1 ≡ s.ref_count = omega arith in
      elim (Bool-cases (s.ref_count == 1)) [
        | inl e ↦
            let last : (s.ref_count + 1 - 1 == 1) ≡ true = rw (back, e) refl in
            rw
              (
                find_base_socket, found, its.at, here0, its.handle, remove_base_socket, here1, many,
                here2, last, e,
              )
              (ap
                (λ h. some (
                  netlib_ok,
                  record {
                    heap = h;
                    next = net.next;
                    socket_map = update handle none net.socket_map;
                  },
                ))
                (closed_heap net.heap p (some s2) (some s1) none))
        | inr e ↦
            let more : (s.ref_count + 1 - 1 == 1) ≡ false = rw (back, e) refl in
            rw
              (
                find_base_socket, found, its.at, here0, its.handle, remove_base_socket, here1, many,
                here2, more, e, back,
              )
              (ap
                (λ h. some (
                  netlib_ok,
                  record {
                    heap = h;
                    next = net.next;
                    socket_map = update handle none net.socket_map;
                  },
                ))
                (closed_heap net.heap p (some s) (some s1)
                  (some (record s { ref_count = s.ref_count - 1 }))))
      ]
]
