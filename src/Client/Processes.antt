-- ===== src/Client/Processes.antt =====
-- c++/client/worker.cpp: the number of child processes that the master process keeps. The processes that
-- fork makes and what waitpid returns are arguments.
use postfix_edm.Prelude.{
  ℕ, zero, suc, ◌+◌, ◌-◌, ◌%◌, ◌^◌, List, [], ◌∷◌, ◌++◌, Option, none, some, Bool, ◌==◌, ltb,
  if◌then◌else◌,
}

-- `childNum` and `childProcessMap`, by the ids of the processes in the order of the map, with those
-- that were sent SIGUSR1.
pub record Master : Type 0 where
  pub child_num : ℕ
  pub children : List ℕ
  pub signalled : List ℕ

-- A uint16_t that is counted down.
abbrev pub decrement : ℕ → ℕ
decrement n = (n + (2 ^ 16 - 1)) % 2 ^ 16

abbrev pub increment : ℕ → ℕ
increment n = (n + 1) % 2 ^ 16

-- The loop that lets children go, over the map.
unfoldable pub reduce_loop : ℕ → List ℕ → Master → Master
reduce_loop zero pids m = record m { children = pids }
reduce_loop (suc n) [] m = record m { children = [] }
reduce_loop (suc n) (pid ∷ pids) m =
    reduce_loop n pids
      (record m { child_num = decrement m.child_num; signalled = m.signalled ++ (pid ∷ []) })

-- The loop that makes children: fork returns the processes of `made`, and where it fails the master
-- exits, which is `none`.
unfoldable pub increase_loop : ℕ → List ℕ → Master → Option Master
increase_loop zero made m = some m
increase_loop (suc n) [] m = none
increase_loop (suc n) (pid ∷ made) m =
    increase_loop n made
      (record m { child_num = increment m.child_num; children = pid ∷ m.children })

-- A round of `OnChildRun` while the sending is on; `multi` is that of the shared memory.
unfoldable pub adjust_children : ℕ → List ℕ → Master → Option Master
adjust_children multi made m =
    let reduced = reduce_loop (m.child_num - multi) m.children m in
    let increased = increase_loop (multi - m.child_num) made m in
    if ltb multi m.child_num then some reduced else increased

-- What waitpid reports: the process, 0 for none, and whether it exited with SIGUSR1.
pub record Waited : Type 0 where
  pub pid : ℕ
  pub retired : Bool

unfoldable pub erase_child : ℕ → List ℕ → List ℕ
erase_child pid [] = []
erase_child pid (p ∷ ps) = let rest = erase_child pid ps in if p == pid then rest else p ∷ rest

-- `sigChldHandler`; `none` is an error of waitpid.
unfoldable pub sig_chld_handler : Option Waited → Master → Master
sig_chld_handler none m = m
sig_chld_handler (some w) m =
    if w.retired
    then m
    else record m { child_num = decrement m.child_num; children = erase_child w.pid m.children }
