-- ===== src/Client/Pool.antt =====
-- The number of child processes against the number that the server asks for.
use postfix_edm.Prelude.{
  ℕ, zero, suc, ◌+◌, ◌-◌, ◌^◌, ◌≤◌, ◌<◌, ◌≡◌, refl, sym, ap, ◌∙◌, List, [], ◌∷◌, ◌++◌, some, true,
  false, ◌==◌, ltb, arith, length, take, inl, inr, Bool-cases, append_assoc, append-nil,
}
use postfix_edm.Prelude.Text.{has}
use postfix_edm.Net.Balance.{Ends, ends}
use postfix_edm.Client.Processes.{
  Master, decrement, increment, reduce_loop, increase_loop, adjust_children, erase_child,
  sig_chld_handler,
}

-- The count is that of the processes in the map.
pub record IsCounted (m : Master) : Type 0 where
  pub counted : m.child_num ≡ length m.children
  pub small : m.child_num < 2 ^ 16

-- There are `n` children, and they are counted.
pub record HasChildren (n : ℕ) (m : Master) : Type 0 where
  pub child_num : m.child_num ≡ n
  pub children : length m.children ≡ n

reduce_loop_lem :
    (n : ℕ) (pids : List ℕ) (m : Master)
    → n ≤ length pids
    → m.child_num ≡ length pids
    → m.child_num < 2 ^ 16
    → HasChildren (length pids - n) (reduce_loop n pids m)
      × ((reduce_loop n pids m).signalled ≡ m.signalled ++ take n pids)
unfolding reduce_loop
reduce_loop_lem zero pids m le e small =
    (record { child_num = e ∙ omega arith; children = omega arith }, sym (append-nil m.signalled))
reduce_loop_lem (suc n) [] m le e small = absurd (omega arith)
reduce_loop_lem (suc n) (pid ∷ pids) m le e small =
    let rest =
      reduce_loop_lem n pids
        (record m { child_num = decrement m.child_num; signalled = m.signalled ++ (pid ∷ []) })
        (omega (arith, le)) (omega (arith, e, small)) (omega arith) in
    (
      record {
        child_num = rest.0.child_num ∙ omega arith;
        children = rest.0.children ∙ omega arith;
      },
      rest.1 ∙ append_assoc m.signalled (pid ∷ []) (take n pids),
    )

increase_loop_lem :
    (n : ℕ) (made : List ℕ) (m : Master)
    → n ≤ length made
    → m.child_num + n < 2 ^ 16
    → Ends
        (λ m'.
          ((m'.child_num ≡ m.child_num + n) × (length m'.children ≡ length m.children + n))
          × (m'.signalled ≡ m.signalled))
        (increase_loop n made m)
unfolding increase_loop
increase_loop_lem zero made m le small = ends m ((omega arith, omega arith), refl)
increase_loop_lem (suc n) [] m le small = absurd (omega arith)
increase_loop_lem (suc n) (pid ∷ made) m le small =
    let next : Master = record m {
      child_num = increment m.child_num;
      children = pid ∷ m.children;
    } in
    let one : increment m.child_num ≡ m.child_num + 1 = omega (arith, small) in
    let rest = increase_loop_lem n made next (omega (arith, le)) (omega (arith, small, one)) in
    record {
      result = rest.result;
      returns = rest.returns;
      holds = ((rest.holds.0.0 ∙ omega (arith, one), rest.holds.0.1 ∙ omega arith), rest.holds.1);
    }

-- Where the count is that of the processes, and fork makes as many as are missing, a round of the master
-- leaves as many children as the server asked for, and sends SIGUSR1 to those that are too many, the
-- first of the map, and to no other.
pub adjust_children_lem :
    (multi : ℕ) (made : List ℕ) (m : Master)
    → IsCounted m
    → multi < 2 ^ 16
    → multi - m.child_num ≤ length made
    → Ends
        (λ m'.
          HasChildren multi m'
          × (m'.signalled ≡ m.signalled ++ take (m.child_num - multi) m.children))
        (adjust_children multi made m)
unfolding adjust_children
adjust_children_lem multi made m ok small enough = elim (Bool-cases (ltb multi m.child_num)) [
  | inl e ↦
      let more : multi < m.child_num = ground arith in
      let run =
        reduce_loop_lem (m.child_num - multi) m.children m (omega (arith, ok.counted)) ok.counted
          ok.small in
      let left : length m.children - (m.child_num - multi) ≡ multi =
        omega (arith, ok.counted, more) in
      rw e (
        ends _
          (record { child_num = run.0.child_num ∙ left; children = run.0.children ∙ left }, run.1))
  | inr e ↦
      let less : m.child_num ≤ multi = ground arith in
      let run =
        increase_loop_lem (multi - m.child_num) made m enough (omega (arith, less, small)) in
      let all : m.child_num + (multi - m.child_num) ≡ multi = omega (arith, less) in
      let none_sent : m.child_num - multi ≡ 0 = omega (arith, less) in
      rw e (record {
        result = run.result;
        returns = run.returns;
        holds = (
          record {
            child_num = run.holds.0.0 ∙ all;
            children = run.holds.0.1 ∙ omega (arith, ok.counted, less);
          },
          run.holds.1
              ∙ sym (append-nil m.signalled)
              ∙ ap (λ (k : ℕ). m.signalled ++ take k m.children) (sym none_sent),
        );
      })
]

erase_child-stray : (pid : ℕ) (pids : List ℕ) → has pid pids ≡ false → erase_child pid pids ≡ pids
unfolding erase_child
erase_child-stray pid [] e = refl
erase_child-stray pid (p ∷ pids) e = elim (Bool-cases (p == pid)) [
  | inl same ↦ absurd (found same e)
  | inr other ↦
      let rest : has pid pids ≡ false = sym (rw other refl) ∙ e in
      rw (other, erase_child-stray pid pids rest) refl
]
  where
    found : (p == pid) ≡ true → has pid (p ∷ pids) ≡ false → ⊥
    found same f = let here : has pid (p ∷ pids) ≡ true = rw same refl in cc

-- Where there are as many children as the server asked for, at least one, and they are counted: after a
-- signal for which waitpid reports none of them and no exit by SIGUSR1, as it does with 0 where no child
-- has changed, the next round, if a fork succeeds, makes one child more than were asked for.
pub sig_chld_handler_stray :
    (multi pid : ℕ) (made : List ℕ) (m : Master)
    → IsCounted m
    → m.child_num ≡ multi
    → 0 < multi
    → 0 < length made
    → has pid m.children ≡ false
    → Ends
        (λ m'. (m'.child_num ≡ multi) × (length m'.children ≡ suc multi))
        (adjust_children multi made
          (sig_chld_handler (some (record { pid = pid; retired = false })) m))
unfolding adjust_children sig_chld_handler
sig_chld_handler_stray multi pid made m ok asked pos can stray =
    let fewer : decrement m.child_num ≡ multi - 1 = omega (arith, ok.small, asked, pos) in
    let next : Master = record m { child_num = decrement m.child_num; children = m.children } in
    let run =
      increase_loop_lem (multi - next.child_num) made next (omega (arith, fewer, can, pos))
        (omega (arith, fewer, ok.small, asked)) in
    let test : ltb multi (decrement m.child_num) ≡ false = ground arith in
    rw (erase_child-stray pid m.children stray, test)
      (record {
        result = run.result;
        returns = run.returns;
        holds = (
          run.holds.0.0 ∙ omega (arith, fewer, pos),
          run.holds.0.1 ∙ omega (arith, fewer, pos, ok.counted, asked),
        );
      })
