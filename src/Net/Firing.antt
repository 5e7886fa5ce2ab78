-- ===== src/Net/Firing.antt =====
-- The timers: when they fire, and which there are.
use postfix_edm.Prelude.{
  ℕ, ◌+◌, ◌≤◌, ◌≡◌, refl, List, [], ◌∷◌, Bool, true, false, ◌&&◌, ◌==◌, leb, if◌then◌else◌, arith,
  inl, inr, Bool-cases,
}
use postfix_edm.Net.Timers.{TimerItem, is_for, add_timer, remove_timer, check_timer}

-- How many items there are for a callback and its data.
unfoldable pub count_for : ℕ → ℕ → List TimerItem → ℕ
count_for callback user_data [] = 0
count_for callback user_data (t ∷ ts) =
    (if is_for callback user_data t then 1 else 0) + count_for callback user_data ts

-- There is at most one.
unfoldable pub IsUnique : List TimerItem → Type 0
IsUnique ts = (callback user_data : ℕ) → count_for callback user_data ts ≤ 1

is_for_self :
    (callback user_data : ℕ) (t : TimerItem)
    → t.callback ≡ callback
    → t.user_data ≡ user_data
    → is_for callback user_data t ≡ true
is_for_self callback user_data t e f = ground arith

is_for_both :
    (callback user_data c u : ℕ) (t : TimerItem)
    → is_for callback user_data t ≡ true
    → is_for c u t ≡ true
    → (callback ≡ c) × (user_data ≡ u)
is_for_both callback user_data c u t e f = ground arith

-- The items for another callback or other data are left alone.
add_timer-count_other :
    (now callback user_data interval : ℕ) (ts : List TimerItem) (c u : ℕ)
    → (c == callback && u == user_data) ≡ false
    → count_for c u (add_timer now callback user_data interval ts) ≡ count_for c u ts
unfolding add_timer count_for
add_timer-count_other now callback user_data interval [] c u ne = ground arith
add_timer-count_other now callback user_data interval (t ∷ ts) c u ne =
    elim (Bool-cases (is_for callback user_data t)) [
      | inl e ↦ rw e refl
      | inr e ↦ rw (e, add_timer-count_other now callback user_data interval ts c u ne) refl
    ]

pub tail_count :
    (c u : ℕ) (t : TimerItem) (ts : List TimerItem) (b : Bool)
    → is_for c u t ≡ b
    → count_for c u (t ∷ ts) ≤ 1
    → count_for c u ts + (if b then 1 else 0) ≤ 1
unfolding count_for
tail_count c u t ts b e le = ground arith

-- There is an item afterwards, and no more than one more where there was none.
add_timer-count_self :
    (now callback user_data interval : ℕ) (ts : List TimerItem)
    → count_for callback user_data ts ≤ 1
    → count_for callback user_data (add_timer now callback user_data interval ts) ≡ 1
unfolding add_timer count_for
add_timer-count_self now callback user_data interval [] le = ground arith
add_timer-count_self now callback user_data interval (t ∷ ts) le =
    elim (Bool-cases (is_for callback user_data t)) [
      | inl e ↦ rw (e, e) (omega (arith, tail_count callback user_data t ts true e le))
      | inr e ↦
          rw (e, e)
            (omega (
              arith,
              add_timer-count_self now callback user_data interval ts
                  (omega (arith, tail_count callback user_data t ts false e le)),
            ))
    ]

remove_timer-count_other :
    (callback user_data : ℕ) (ts : List TimerItem) (c u : ℕ)
    → count_for c u (remove_timer callback user_data ts) ≤ count_for c u ts
unfolding remove_timer count_for
remove_timer-count_other callback user_data [] c u = omega arith
remove_timer-count_other callback user_data (t ∷ ts) c u =
    elim (Bool-cases (is_for callback user_data t)) [
      | inl e ↦ rw e (omega arith)
      | inr e ↦ rw e (omega (arith, remove_timer-count_other callback user_data ts c u))
    ]

remove_timer-count_self :
    (callback user_data : ℕ) (ts : List TimerItem)
    → count_for callback user_data ts ≤ 1
    → count_for callback user_data (remove_timer callback user_data ts) ≡ 0
unfolding remove_timer count_for
remove_timer-count_self callback user_data [] le = refl
remove_timer-count_self callback user_data (t ∷ ts) le =
    elim (Bool-cases (is_for callback user_data t)) [
      | inl e ↦ rw e (omega (arith, tail_count callback user_data t ts true e le))
      | inr e ↦
          rw (e, e)
            (omega (
              arith,
              remove_timer-count_self callback user_data ts
                  (omega (arith, tail_count callback user_data t ts false e le)),
            ))
    ]

pub check_timer-count :
    (tick : ℕ) (ts : List TimerItem) (c u : ℕ)
    → count_for c u (check_timer tick ts).1 ≡ count_for c u ts
unfolding check_timer count_for
check_timer-count tick [] c u = refl
check_timer-count tick (t ∷ ts) c u = elim (Bool-cases (leb t.next_tick tick)) [
  | inl e ↦ rw (e, check_timer-count tick ts c u) refl
  | inr e ↦ rw (e, check_timer-count tick ts c u) refl
]

IsUnique-check_timer :
    (tick : ℕ) (ts : List TimerItem) → IsUnique ts → IsUnique (check_timer tick ts).1
unfolding IsUnique
IsUnique-check_timer tick ts one c u = rw (check_timer-count tick ts c u) (one c u)

-- Where there is at most one item for each callback and data, this stays so when a timer is added,
-- removed or checked; the added one is there once, and the removed one is not there.
pub IsUnique-timers :
    (now tick callback user_data interval : ℕ) (ts : List TimerItem)
    → IsUnique ts
    → (IsUnique (add_timer now callback user_data interval ts)
        × (count_for callback user_data (add_timer now callback user_data interval ts) ≡ 1))
      × ((IsUnique (remove_timer callback user_data ts)
            × (count_for callback user_data (remove_timer callback user_data ts) ≡ 0))
          × IsUnique (check_timer tick ts).1)
unfolding IsUnique
IsUnique-timers now tick callback user_data interval ts one = (
  (added, add_timer-count_self now callback user_data interval ts (one callback user_data)),
  (
    (removed, remove_timer-count_self callback user_data ts (one callback user_data)),
    IsUnique-check_timer tick ts one,
  ),
)
  where
    removed : (c u : ℕ) → count_for c u (remove_timer callback user_data ts) ≤ 1
    removed c u = omega (arith, one c u, remove_timer-count_other callback user_data ts c u)

    added : (c u : ℕ) → count_for c u (add_timer now callback user_data interval ts) ≤ 1
    added c u = elim (Bool-cases (c == callback && u == user_data)) [
      | inr ne ↦
          omega (arith, one c u, add_timer-count_other now callback user_data interval ts c u ne)
      | inl eq ↦
          let c_eq : c ≡ callback = ground arith in
          let u_eq : u ≡ user_data = ground arith in
          rw (c_eq, u_eq)
            (omega (
              arith,
              add_timer-count_self now callback user_data interval ts (one callback user_data),
            ))
    ]
