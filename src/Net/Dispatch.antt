-- ===== src/Net/Dispatch.antt =====
-- c++/base/EventDispatch.cpp: what `StartDispatch` does with what epoll_wait returns.
use postfix_edm.Prelude.{ℕ, List, [], ◌∷◌, Option, none, some, Bool, if◌then◌else◌}
use postfix_edm.Prelude.Memory.{◌>>=◌}
use postfix_edm.Net.{Net, find_base_socket, release_ref}
use postfix_edm.Net.BaseSockets.{Calls, Accepted, on_read, on_write, on_close}

-- An event: its descriptor, which of the three tests on its flags hold, and what the system calls of the
-- handlers find.
pub record EpollEvent : Type 0 where
  pub fd : ℕ
  pub readable : Bool
  pub writable : Bool
  pub closed : Bool
  pub peers : List Accepted
  pub avail : Bool
  pub failed : Bool

module _ (call : Calls) where
  -- The handlers, one after the other, on the socket at `p`.
  unfoldable pub run_handlers : EpollEvent → ℕ → Net → Option Net
  run_handlers e p net = do
    net' ← (if e.readable then on_read call p e.peers e.avail net else some net)
    net'' ← (if e.writable then on_write call p e.failed net' else some net')
    if e.closed then on_close call p net'' else some net''

  unfoldable pub handle_event : EpollEvent → Net → Option Net
  handle_event e net = do
    (found, net') ← find_base_socket e.fd net
    elim found [ none ↦ some net' | some p ↦ do net'' ← run_handlers e p net'; release_ref p net'' ]

  -- The loop over the events.
  unfoldable pub handle_events : List EpollEvent → Net → Option Net
  handle_events [] net = some net
  handle_events (e ∷ es) net = do net' ← handle_event e net; handle_events es net'
