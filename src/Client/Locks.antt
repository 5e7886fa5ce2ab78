-- ===== src/Client/Locks.antt =====
-- c++/client/worker.cpp: the threads and processes that share the locks of the shared memory, interleaved
-- in any order. Between two operations on a lock a thread runs by itself.
pub mod Held
pub mod Exclusion
pub mod Crossing
use postfix_edm.Prelude.{
  ℕ, ◌≡◌, List, [], ◌∷◌, ◌++◌, Option, none, some, Bool, true, false, ◌==◌, if◌then◌else◌,
}

-- The locks of `shm_shared_t`.
pub data Lock : Type 0 where
  child_lock command_lock product_lock consume_lock : Lock

abbrev pub index : Lock → ℕ
index child_lock = 0
index command_lock = 1
index product_lock = 2
index consume_lock = 3

abbrev pub same_lock : Lock → Lock → Bool
same_lock l k = index l == index k

-- The operations of `CThreadLock`; `asleep` is a wait that was begun. `pull` reads the mails and adds to
-- `havePushNum`.
pub data Op : Type 0 where
  lock : Lock → Op
  unlock : Lock → Op
  notify_all : Lock → Op
  wait : Lock → Op
  asleep : Lock → Op
  pull : Op

-- `COND_LOCK_NOTIFYALL`.
abbrev pub cond_lock_notify_all : Lock → List Op → List Op
cond_lock_notify_all l rest = lock l ∷ notify_all l ∷ unlock l ∷ rest

-- The branch of a loop that is not to start.
abbrev pub wait_for_command : List Op
wait_for_command = lock command_lock ∷ wait command_lock ∷ unlock command_lock ∷ []

-- The event loop with `setStatus`, the thread of `cWorkerThread`, the master process and a child.
pub data Role : Type 0 where
  event_loop worker_thread master child : Role

-- What a thread does with the locks in a round of its loop; which round it takes is up to the status, the
-- database and the system.
pub data Round : Role → List Op → Type 0 where
  status_set : Round event_loop (cond_lock_notify_all command_lock [])
  no_mails : Round worker_thread (lock product_lock ∷ unlock product_lock ∷ [])
  mails : Round worker_thread (
      lock product_lock
      ∷ cond_lock_notify_all consume_lock (wait product_lock ∷ unlock product_lock ∷ []))
  stopped_thread : Round worker_thread wait_for_command
  stopped_master : Round master wait_for_command
  busy_child : Round child (lock child_lock ∷ pull ∷ unlock child_lock ∷ [])
  idle_child : Round child (
      lock child_lock
      ∷ pull
      ∷ unlock child_lock
      ∷ lock consume_lock
      ∷ cond_lock_notify_all product_lock (wait consume_lock ∷ unlock consume_lock ∷ []))
  stopped_child : Round child wait_for_command

-- Who holds each lock, and what each thread has yet to do in its round.
pub record System : Type 0 where
  pub holder : Lock → Option ℕ
  pub todo : ℕ → List Op

abbrev pub set_holder : Lock → Option ℕ → (Lock → Option ℕ) → Lock → Option ℕ
set_holder l o f k = if same_lock l k then o else f k

abbrev pub set_todo : ℕ → List Op → (ℕ → List Op) → ℕ → List Op
set_todo i ops f j = if i == j then ops else f j

-- A thread that sleeps on the condition of the lock has to lock it again.
abbrev pub woken : Lock → List Op → List Op
woken l (asleep k ∷ ops) = if same_lock l k then lock k ∷ ops else asleep k ∷ ops
woken l ops = ops

-- A step of thread `i`. A wait may also end by itself.
pub data Move (role : ℕ → Role) (i : ℕ) (s : System) : System → Type 0 where
  begin :
      {ops : List Op}
      → s.todo i ≡ []
      → Round (role i) ops
      → Move role i s (record s { todo = set_todo i ops s.todo })
  locks :
      {l : Lock} {ops : List Op}
      → s.todo i ≡ lock l ∷ ops
      → s.holder l ≡ none
      → Move role i s
          (record { holder = set_holder l (some i) s.holder; todo = set_todo i ops s.todo })
  unlocks :
      {l : Lock} {ops : List Op}
      → s.todo i ≡ unlock l ∷ ops
      → Move role i s (record { holder = set_holder l none s.holder; todo = set_todo i ops s.todo })
  notifies :
      {l : Lock} {ops : List Op}
      → s.todo i ≡ notify_all l ∷ ops
      → Move role i s (record s { todo = set_todo i ops (λ j. woken l (s.todo j)) })
  waits :
      {l : Lock} {ops : List Op}
      → s.todo i ≡ wait l ∷ ops
      → Move role i s (record {
        holder = set_holder l none s.holder;
        todo = set_todo i (asleep l ∷ ops) s.todo;
      })
  wakes :
      {l : Lock} {ops : List Op}
      → s.todo i ≡ asleep l ∷ ops
      → Move role i s (record s { todo = set_todo i (lock l ∷ ops) s.todo })
  pulls :
      {ops : List Op}
      → s.todo i ≡ pull ∷ ops
      → Move role i s (record s { todo = set_todo i ops s.todo })

pub data Step (role : ℕ → Role) (s : System) : System → Type 0 where
  step : (i : ℕ) {t : System} → Move role i s t → Step role s t

pub data Steps (role : ℕ → Role) (s : System) : System → Type 0 where
  stay : Steps role s s
  later : {t u : System} → Steps role s t → Step role t u → Steps role s u

-- Every lock is free, and every thread is between two rounds.
abbrev pub init : System
init = record { holder = λ l. none; todo = λ i. [] }
