-- ===== src/Net/Apart.antt =====
-- One timer among others: its calls and what becomes of it are those it would have alone.
use postfix_edm.Prelude.{
  ℕ, zero, suc, ◌≤◌, ◌≡◌, refl, ap, ◌∙◌, List, [], ◌∷◌, ◌++◌, some, Bool, true, false, ◌&&◌, ◌==◌,
  leb, if◌then◌else◌, arith, inl, inr, Bool-cases, get_elem?,
}
use mathlib.Core.Path.{subst}
use postfix_edm.Net.Timers.{TimerItem, Fired, is_for, advanced, check_timer, check_rounds}
use postfix_edm.Net.Firing.{count_for, tail_count, check_timer-count}

abbrev is_call : ℕ → ℕ → Fired → Bool
is_call callback user_data f = f.callback == callback && f.user_data == user_data

-- The calls of a callback with its data, among all.
unfoldable pub calls_for : ℕ → ℕ → List Fired → List Fired
calls_for callback user_data [] = []
calls_for callback user_data (f ∷ fs) =
    let rest = calls_for callback user_data fs in
    if is_call callback user_data f then f ∷ rest else rest

some_inj : {s t : TimerItem} → some s ≡ some t → s ≡ t
some_inj e = cc

module _ (c u : ℕ) where
  calls_for-append :
      (fs gs : List Fired) → calls_for c u (fs ++ gs) ≡ calls_for c u fs ++ calls_for c u gs
  unfolding calls_for
  calls_for-append [] gs = refl
  calls_for-append (f ∷ fs) gs = elim (Bool-cases (is_call c u f)) [
    | inl e ↦ rw (e, calls_for-append fs gs) refl
    | inr e ↦ rw (e, calls_for-append fs gs) refl
  ]

  -- Who has no timer gets no call.
  calls_for-nobody :
      (tick : ℕ) (ts : List TimerItem)
      → count_for c u ts ≡ 0
      → calls_for c u (check_timer tick ts).0 ≡ []
  unfolding calls_for check_timer count_for
  calls_for-nobody tick [] none_there = refl
  calls_for-nobody tick (t ∷ ts) none_there = elim (Bool-cases (is_for c u t)) [
    | inl f ↦ absurd (let n = rw f at none_there in omega (arith, n))
    | inr f ↦
        let n = rw f at none_there in
        let rest = calls_for-nobody tick ts (omega (arith, n)) in
        elim (Bool-cases (leb t.next_tick tick)) [ inl e ↦ rw (e, f) rest | inr e ↦ rw e rest ]
  ]

  count-found :
      (ts : List TimerItem) (i : ℕ) (t : TimerItem)
      → get_elem? ts i ≡ some t
      → is_for c u t ≡ true
      → 1 ≤ count_for c u ts
  unfolding count_for
  count-found [] i t at its = absurd (cc)
  count-found (s ∷ ts) zero t at its =
      let same : s ≡ t = some_inj at in
      let hit : is_for c u s ≡ true = ap (is_for c u) same ∙ its in rw hit (omega arith)
  count-found (s ∷ ts) (suc i) t at its = omega (arith, count-found ts i t at its)

  check_timer-first :
      (tick : ℕ) (ts : List TimerItem) (t : TimerItem)
      → is_for c u t ≡ true
      → count_for c u ts ≡ 0
      → (calls_for c u (check_timer tick (t ∷ ts)).0 ≡ (check_timer tick (t ∷ [])).0)
        × (get_elem? (check_timer tick (t ∷ ts)).1 0 ≡ get_elem? (check_timer tick (t ∷ [])).1 0)
  unfolding calls_for check_timer
  check_timer-first tick ts t its none_else =
      let nobody = calls_for-nobody tick ts none_else in
      elim (Bool-cases (leb t.next_tick tick)) [
        | inl e ↦ rw (e, its, nobody) (refl, refl)
        | inr e ↦ rw (e, nobody) (refl, refl)
      ]

  check_timer-apart :
      (tick : ℕ) (ts : List TimerItem) (i : ℕ) (t : TimerItem)
      → get_elem? ts i ≡ some t
      → is_for c u t ≡ true
      → count_for c u ts ≤ 1
      → (calls_for c u (check_timer tick ts).0 ≡ (check_timer tick (t ∷ [])).0)
        × (get_elem? (check_timer tick ts).1 i ≡ get_elem? (check_timer tick (t ∷ [])).1 0)
  unfolding calls_for check_timer
  check_timer-apart tick [] i t at its one = absurd (cc)
  check_timer-apart tick (s ∷ ts) zero t at its one =
      let same : s ≡ t = some_inj at in
      let hit : is_for c u s ≡ true = ap (is_for c u) same ∙ its in
      let none_else : count_for c u ts ≡ 0 = omega (arith, tail_count c u s ts true hit one) in
      subst
        (λ x.
          (calls_for c u (check_timer tick (s ∷ ts)).0 ≡ (check_timer tick (x ∷ [])).0)
          × (get_elem? (check_timer tick (s ∷ ts)).1 0 ≡ get_elem? (check_timer tick (x ∷ [])).1 0))
        same (check_timer-first tick ts s hit none_else)
  check_timer-apart tick (s ∷ ts) (suc i) t at its one = elim (Bool-cases (is_for c u s)) [
    | inl f ↦ absurd (omega (arith, tail_count c u s ts true f one, count-found ts i t at its))
    | inr f ↦
        let rest =
          check_timer-apart tick ts i t at its (omega (arith, tail_count c u s ts false f one)) in
        elim (Bool-cases (leb s.next_tick tick)) [ inl e ↦ rw (e, f) rest | inr e ↦ rw e rest ]
  ]

  -- An item after a check alone.
  abbrev after_check : ℕ → TimerItem → TimerItem
  after_check tick t = if leb t.next_tick tick then advanced t else t

  check_timer-alone :
      (tick : ℕ) (t : TimerItem) → (check_timer tick (t ∷ [])).1 ≡ after_check tick t ∷ []
  unfolding check_timer
  check_timer-alone tick t = elim (Bool-cases (leb t.next_tick tick)) [
    | inl e ↦ rw e refl
    | inr e ↦ rw e refl
  ]

  after_check-its :
      (tick : ℕ) (t : TimerItem) → is_for c u t ≡ true → is_for c u (after_check tick t) ≡ true
  after_check-its tick t its = elim (Bool-cases (leb t.next_tick tick)) [
    | inl e ↦ rw e its
    | inr e ↦ rw e its
  ]

  -- The calls of a timer over the rounds, and its item at the end, are those it has alone.
  pub check_rounds-apart :
      (ticks : List ℕ) (ts : List TimerItem) (i : ℕ) (t : TimerItem)
      → get_elem? ts i ≡ some t
      → is_for c u t ≡ true
      → count_for c u ts ≤ 1
      → (calls_for c u (check_rounds ticks ts).0 ≡ (check_rounds ticks (t ∷ [])).0)
        × (get_elem? (check_rounds ticks ts).1 i ≡ get_elem? (check_rounds ticks (t ∷ [])).1 0)
  unfolding check_rounds calls_for
  check_rounds-apart [] ts i t at its one = (refl, at)
  check_rounds-apart (tick ∷ ticks) ts i t at its one =
      let now = check_timer-apart tick ts i t at its one in
      let alone = check_timer-alone tick t in
      let next = now.1 ∙ ap (λ l. get_elem? l 0) alone in
      let rest =
        check_rounds-apart ticks (check_timer tick ts).1 i (after_check tick t) next
          (after_check-its tick t its) (rw (check_timer-count tick ts c u) one) in
      rw
        (
          alone,
          calls_for-append (check_timer tick ts).0 (check_rounds ticks (check_timer tick ts).1).0,
          now.0,
          rest.0,
          rest.1,
        )
        (refl, refl)
