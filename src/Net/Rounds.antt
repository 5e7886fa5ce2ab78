-- ===== src/Net/Rounds.antt =====
-- The handlers of a socket and the rounds of the dispatcher, whatever a callback does that keeps the
-- references.
use postfix_edm.Prelude.{
  ℕ, ◌<◌, ◌≡◌, refl, ap, ◌∙◌, List, [], ◌∷◌, Option, some, Bool, true, false, if◌then◌else◌, arith,
  inl, inr, Bool-cases, Option-cases,
}
use postfix_edm.Prelude.Memory.{◌>>=◌}
use postfix_edm.Net.{
  connected, BaseSocket, new_socket, Net, put_socket, make_socket, add_base_socket,
}
use postfix_edm.Net.BaseSockets.{
  is_listening, is_connecting, Calls, Msg, msg_connect, Accepted, accept_one, accept_new_socket,
  on_read, on_write, on_close,
}
use postfix_edm.Net.Dispatch.{EpollEvent, run_handlers, handle_event, handle_events}
use postfix_edm.Net.Counts.{IsNet, IsHeld, bump, bump_self, IsNet-put_socket, update_self}
use postfix_edm.Net.Balance.{Ends, release_ref_lem, find_base_socket_lem, find_base_socket_missing}
use postfix_edm.Net.Making.{IsNet-add_base_socket, IsNet-make_socket}

-- What the dispatcher asks of a callback: it returns, and leaves the references that others hold as
-- they are.
abbrev pub Keeps : Calls → Type 0
Keeps call =
    (extra : ℕ → ℕ) (net : Net) (callback user_data : ℕ) (msg : Msg) (handle : Option ℕ)
    → IsNet extra net
    → Ends (IsNet extra) (call callback user_data msg handle net)

-- A step after which another follows.
pub then-Ends {ℓ} :
    {A B : Type ℓ} {P : A → Type 0} {Q : B → Type 0} {run : Option A} {next : A → Option B}
    → Ends P run
    → ((a : A) → P a → Ends Q (next a))
    → Ends Q (run >>= next)
then-Ends {next} first rest =
    let second = rest first.result first.holds in
    record {
      result = second.result;
      returns = ap (λ r. r >>= next) first.returns ∙ second.returns;
      holds = second.holds;
    }

-- A new socket that is given a handle and inserted.
pub IsNet-new :
    {extra : ℕ → ℕ} {net : Net} (fd : ℕ) (s' : BaseSocket)
    → IsNet extra net
    → s'.ref_count ≡ 1
    → s'.fd ≡ some fd
    → IsNet extra (
        add_base_socket
          (make_socket net).0
          (some fd)
          (put_socket (make_socket net).0 s' (make_socket net).1))
unfolding make_socket
IsNet-new {extra} {net} fd s' net_ok one its_fd =
    IsNet-add_base_socket fd net.next
      (IsNet-put_socket {extra' = bump net.next extra} net.next s' (IsNet-make_socket net_ok)
        (update_self net.next (some new_socket) net.heap) (inr refl) (λ q ne. refl)
        (omega (arith, one)))
      (update_self net.next (some s') (make_socket net).1.heap) its_fd

when :
    {P : Net → Type 0} {net : Net} {run : Option Net} (test : Bool)
    → Ends P run
    → P net
    → Ends P (if test then run else some net)
when true ran ok = ran
when {net} false ran ok = record { result = net; returns = refl; holds = ok }

pub weaken {ℓ} :
    {A : Type ℓ} {P Q : A → Type 0} {run : Option A}
    → ((a : A) → P a → Q a)
    → Ends P run
    → Ends Q run
weaken f ran = record { result = ran.result; returns = ran.returns; holds = f ran.result ran.holds }

-- A write that changes neither the handle nor the count.
pub IsNet-same :
    {extra : ℕ → ℕ} {net : Net} {s : BaseSocket} (p : ℕ) (s' : BaseSocket)
    → IsNet extra net
    → net.heap p ≡ some s
    → s'.fd ≡ s.fd
    → s'.ref_count ≡ s.ref_count
    → IsNet extra (put_socket p s' net)
IsNet-same p s' net_ok at fd count =
    IsNet-put_socket p s' net_ok at (inl fd) (λ q ne. refl) (omega (arith, count))

module _ (call : Calls) (keeps : Keeps call) {extra : ℕ → ℕ} (p : ℕ) (held : 0 < extra p) where
  accept_one_lem :
      {net : Net} (peer : Accepted)
      → IsNet extra net
      → Ends (IsNet extra) (accept_one call p peer net)
  unfolding accept_one make_socket
  accept_one_lem {net} peer net_ok =
      let its : IsHeld extra net p = net_ok.held p held in
      let s' : BaseSocket = record new_socket {
        fd = some peer.fd;
        callback = its.socket.callback;
        callback_data = its.socket.callback_data;
        state = connected;
        remote_ip = peer.ip;
        remote_port = peer.port;
      } in
      let called : Ends (IsNet extra) _ =
        keeps extra _ its.socket.callback its.socket.callback_data msg_connect (some peer.fd)
          (IsNet-new peer.fd s' net_ok refl refl) in
      record {
        result = called.result;
        returns = rw (its.at, update_self net.next (some new_socket) net.heap) called.returns;
        holds = called.holds;
      }

  accept_new_socket_lem :
      {net : Net} (peers : List Accepted)
      → IsNet extra net
      → Ends (IsNet extra) (accept_new_socket call p peers net)
  unfolding accept_new_socket
  accept_new_socket_lem {net} [] net_ok = record { result = net; returns = refl; holds = net_ok }
  accept_new_socket_lem (peer ∷ peers) net_ok =
      then-Ends (accept_one_lem peer net_ok) (λ net' ok. accept_new_socket_lem peers ok)

  on_read_lem :
      {net : Net} (peers : List Accepted) (avail : Bool)
      → IsNet extra net
      → Ends (IsNet extra) (on_read call p peers avail net)
  unfolding on_read
  on_read_lem {net} peers avail net_ok =
      let its : IsHeld extra net p = net_ok.held p held in
      rw its.at (elim (Bool-cases (is_listening its.socket.state)) [
        | inl e ↦ rw e (accept_new_socket_lem peers net_ok)
        | inr e ↦ rw e (keeps extra net _ _ _ _ net_ok)
      ])

  on_write_lem :
      {net : Net} (failed : Bool)
      → IsNet extra net
      → Ends (IsNet extra) (on_write call p failed net)
  unfolding on_write
  on_write_lem {net} failed net_ok =
      let its : IsHeld extra net p = net_ok.held p held in
      rw its.at (elim (Bool-cases (is_connecting its.socket.state)) [
        | inr e ↦ rw e (keeps extra net _ _ _ _ net_ok)
        | inl e ↦ elim (Bool-cases failed) [
          | inl f ↦ rw (e, f) (keeps extra net _ _ _ _ net_ok)
          | inr f ↦ rw (e, f) (keeps extra _ _ _ _ _ (IsNet-same p _ net_ok its.at refl refl))
        ]
      ])

  on_close_lem : {net : Net} → IsNet extra net → Ends (IsNet extra) (on_close call p net)
  unfolding on_close
  on_close_lem {net} net_ok =
      let its : IsHeld extra net p = net_ok.held p held in
      rw its.at (keeps extra _ _ _ _ _ (IsNet-same p _ net_ok its.at refl refl))

  run_handlers_lem :
      {net : Net} (e : EpollEvent)
      → IsNet extra net
      → Ends (IsNet extra) (run_handlers call e p net)
  unfolding run_handlers
  run_handlers_lem {net} e net_ok =
      then-Ends (when e.readable (on_read_lem e.peers e.avail net_ok) net_ok) (λ net' ok'.
        then-Ends (when e.writable (on_write_lem e.failed ok') ok')
          (λ net'' ok''. when e.closed (on_close_lem ok'') ok''))

module _ (call : Calls) (keeps : Keeps call) {extra : ℕ → ℕ} where
  -- The reference that is found is held while the handlers run, and dropped after them.
  handle_event_lem :
      {net : Net} (e : EpollEvent) → IsNet extra net → Ends (IsNet extra) (handle_event call e net)
  unfolding handle_event
  handle_event_lem {net} e net_ok = elim (Option-cases (net.socket_map e.fd)) [
    | inl missing ↦
        rw (find_base_socket_missing {net = net} e.fd missing)
          (record { result = net; returns = refl; holds = net_ok })
    | inr (p, found) ↦ then-Ends (find_base_socket_lem e.fd p net_ok found) (λ r ok. rw ok.0 (
        then-Ends (run_handlers_lem call keeps p (rw (bump_self p extra) (omega arith)) e ok.2)
          (λ net'' ok''. weaken (λ net' h. h.1) (release_ref_lem p ok''))))
  ]

  -- Where the counts cover the references held, and the callbacks keep the references: whatever events
  -- come, in whatever order, the loop of StartDispatch over them ends without an access to a deleted
  -- socket, and the counts still cover the references that were held.
  pub handle_events_lem :
      {net : Net} (es : List EpollEvent)
      → IsNet extra net
      → Ends (IsNet extra) (handle_events call es net)
  unfolding handle_events
  handle_events_lem {net} [] net_ok = record { result = net; returns = refl; holds = net_ok }
  handle_events_lem (e ∷ es) net_ok =
      then-Ends (handle_event_lem e net_ok) (λ net' ok. handle_events_lem es ok)
