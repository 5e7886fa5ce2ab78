-- ===== src/Net/Schedule.antt =====
-- When a timer fires, over the rounds of the dispatcher.
use postfix_edm.Prelude.{
  ℕ, zero, suc, ◌+◌, ◌*◌, ◌^◌, ◌≤◌, ◌<◌, ◌≡◌, refl, List, [], ◌∷◌, true, leb, leb→le, arith, length,
  inl, ◌∙◌, ap, Option, some, get_elem?, inr, ◌⊎◌, Bool-cases,
}
use mathlib.Core.Path.{subst}
use postfix_edm.Net.Timers.{TimerItem, Fired, is_for, check_timer, check_rounds, fired_by, advanced}
use postfix_edm.Net.Firing.{IsUnique}
use postfix_edm.Net.Apart.{calls_for, check_rounds-apart}

-- An item that has fired `k` times since it was `t`: its next tick is `k` intervals later.
unfoldable pub after_firing : ℕ → TimerItem → TimerItem
after_firing k t = record t { next_tick = t.next_tick + k * t.interval }

unfoldable pub repeat : ℕ → Fired → List Fired
repeat zero f = []
repeat (suc k) f = f ∷ repeat k f

unfoldable pub AreAtMost : ℕ → List ℕ → Type 0
AreAtMost last [] = Unit
AreAtMost last (tick ∷ ticks) = (tick ≤ last) × AreAtMost last ticks

-- How often a timer fires alone, with what becomes of it.
record IsAlone (t : TimerItem) (last rounds : ℕ) (run : List Fired × List TimerItem) : Type 0 where
  firings : ℕ
  few : firings ≤ rounds
  calls : run.0 ≡ repeat firings (fired_by t)
  item : run.1 ≡ after_firing firings t ∷ []
  not_early : (firings ≡ 0) ⊎ (t.next_tick + firings * t.interval ≤ last + t.interval)

advanced_lem : (t : TimerItem) → t.next_tick + t.interval < 2 ^ 64 → advanced t ≡ after_firing 1 t
unfolding after_firing
advanced_lem t small = ap (λ (n : ℕ). record t { next_tick = n }) (omega (arith, small))

after_firing-after_firing :
    (k : ℕ) (t : TimerItem) → after_firing k (after_firing 1 t) ≡ after_firing (suc k) t
unfolding after_firing
after_firing-after_firing k t = ap (λ (n : ℕ). record t { next_tick = n }) (omega arith)

due :
    (tick : ℕ) (t : TimerItem)
    → t.next_tick + t.interval < 2 ^ 64
    → leb t.next_tick tick ≡ true
    → check_timer tick (t ∷ []) ≡ (fired_by t ∷ [], after_firing 1 t ∷ [])
unfolding check_timer
due tick t small e = rw (e, advanced_lem t small) refl

-- A timer that is the only one.
check_rounds-IsAlone :
    (ticks : List ℕ) (last : ℕ) (t : TimerItem)
    → AreAtMost last ticks
    → t.next_tick + length ticks * t.interval < 2 ^ 64
    → IsAlone t last (length ticks) (check_rounds ticks (t ∷ []))
unfolding check_rounds check_timer AreAtMost repeat after_firing
check_rounds-IsAlone [] last t at_most small = record {
  firings = 0;
  few = omega arith;
  calls = refl;
  item = ap (λ (n : ℕ). record t { next_tick = n } ∷ []) (omega arith);
  not_early = inl refl;
}
check_rounds-IsAlone (tick ∷ ticks) last t (le, at_most) small =
    elim (Bool-cases (leb t.next_tick tick)) [
      | inl e ↦
          let rest : IsAlone (after_firing 1 t) last (length ticks) _ =
            check_rounds-IsAlone ticks last (after_firing 1 t) at_most (omega (arith, small)) in
          record {
            firings = suc rest.firings;
            few = omega (arith, rest.few);
            calls = rw (due tick t (omega (arith, small)) e, rest.calls) refl;
            item =
                rw
                  (
                    due tick t (omega (arith, small)) e,
                    rest.item,
                    after_firing-after_firing rest.firings t,
                  )
                  refl;
            not_early = inr (elim rest.not_early [
              | inl z ↦
                  let first : t.next_tick ≤ tick = leb→le t.next_tick tick e in
                  let once : rest.firings * t.interval ≡ 0 * t.interval =
                    ap (λ (k : ℕ). k * t.interval) z in
                  omega (arith, first, le, once)
              | inr m ↦ omega (arith, m)
            ]);
          }
      | inr e ↦
          let rest : IsAlone t last (length ticks) _ =
            check_rounds-IsAlone ticks last t at_most (omega (arith, small)) in
          record {
            firings = rest.firings;
            few = omega (arith, rest.few);
            calls = rw e rest.calls;
            item = rw e rest.item;
            not_early = rest.not_early;
          }
    ]

unfoldable pub AreAtLeast : ℕ → ℕ → List ℕ → Type 0
AreAtLeast next interval [] = Unit
AreAtLeast next interval (tick ∷ ticks) =
    (next ≤ tick) × AreAtLeast (next + interval) interval ticks

check_rounds-alone :
    (ticks : List ℕ) (t : TimerItem)
    → AreAtLeast t.next_tick t.interval ticks
    → t.next_tick + length ticks * t.interval < 2 ^ 64
    → check_rounds ticks (t ∷ [])
      ≡ (repeat (length ticks) (fired_by t), after_firing (length ticks) t ∷ [])
unfolding check_rounds check_timer AreAtLeast repeat after_firing
check_rounds-alone [] t at_least small =
    ap (λ (n : ℕ). ([], record t { next_tick = n } ∷ [])) (omega arith)
check_rounds-alone (tick ∷ ticks) t (le, at_least) small =
    let e : leb t.next_tick tick ≡ true = ground arith in
    let later : AreAtLeast (t.next_tick + 1 * t.interval) t.interval ticks =
      subst (λ (n : ℕ). AreAtLeast n t.interval ticks) (omega arith) at_least in
    rw
      (
        due tick t (omega (arith, small)) e,
        check_rounds-alone ticks (after_firing 1 t) later (omega (arith, small)),
        after_firing-after_firing (length ticks) t,
      )
      refl

-- How often a timer fires among others, with what becomes of its item.
pub record IsOnSchedule (t : TimerItem) (last rounds : ℕ) (calls_made : List Fired)
    (left : Option TimerItem) : Type 0 where
  pub firings : ℕ
  pub few : firings ≤ rounds
  pub calls : calls_made ≡ repeat firings (fired_by t)
  pub item : left ≡ some (after_firing firings t)
  pub not_early : (firings ≡ 0) ⊎ (t.next_tick + firings * t.interval ≤ last + t.interval)

-- A timer has its own callback and data.
is_for_self : (t : TimerItem) → is_for t.callback t.user_data t ≡ true
is_for_self t = ground arith

-- Over rounds that are not later than `last`, of any list of timers in which no two have the same callback
-- and data, while the ticks of a timer of the list fit 64 bits, it is called at most once in a round, each
-- call puts its next one exactly an interval later, however late it was, and the last call was due by
-- `last`; its item keeps its place, whatever the other timers do.
pub check_rounds-IsOnSchedule :
    (ticks : List ℕ) (last : ℕ) (ts : List TimerItem) (i : ℕ) (t : TimerItem)
    → IsUnique ts
    → get_elem? ts i ≡ some t
    → AreAtMost last ticks
    → t.next_tick + length ticks * t.interval < 2 ^ 64
    → IsOnSchedule t last
        (length ticks)
        (calls_for t.callback t.user_data (check_rounds ticks ts).0)
        (get_elem? (check_rounds ticks ts).1 i)
unfolding IsUnique
check_rounds-IsOnSchedule ticks last ts i t unique at at_most small =
    let own =
      check_rounds-apart t.callback t.user_data ticks ts i t at (is_for_self t)
        (unique t.callback t.user_data) in
    let alone = check_rounds-IsAlone ticks last t at_most small in
    record {
      firings = alone.firings;
      few = alone.few;
      calls = own.0 ∙ alone.calls;
      item = own.1 ∙ ap (λ l. get_elem? l 0) alone.item;
      not_early = alone.not_early;
    }

-- Of any list of timers in which no two have the same callback and data, a timer whose turn has come by
-- every round is called in every round while its ticks fit 64 bits, whatever the others do: one that is
-- late catches up.
pub check_rounds-every :
    (ticks : List ℕ) (ts : List TimerItem) (i : ℕ) (t : TimerItem)
    → IsUnique ts
    → get_elem? ts i ≡ some t
    → AreAtLeast t.next_tick t.interval ticks
    → t.next_tick + length ticks * t.interval < 2 ^ 64
    → (calls_for t.callback t.user_data (check_rounds ticks ts).0
        ≡ repeat (length ticks) (fired_by t))
      × (get_elem? (check_rounds ticks ts).1 i ≡ some (after_firing (length ticks) t))
unfolding IsUnique
check_rounds-every ticks ts i t unique at at_least small =
    let own =
      check_rounds-apart t.callback t.user_data ticks ts i t at (is_for_self t)
        (unique t.callback t.user_data) in
    let alone = check_rounds-alone ticks t at_least small in
    (own.0 ∙ ap (λ r. r.0) alone, own.1 ∙ ap (λ r. get_elem? r.1 0) alone)
