-- ===== src/Client/Locks/Exclusion.antt =====
-- The locks exclude, whatever the interleaving.
use postfix_edm.Prelude.{
  ℕ, ◌≡◌, refl, sym, ap, ◌∙◌, List, ◌∷◌, Option, none, some, Bool, true, false, ◌==◌, if◌then◌else◌,
  inl, inr, Bool-cases, ==_iff, arith,
}
use mathlib.Core.Path.{subst}
use postfix_edm.Client.Locks.{
  Lock, child_lock, command_lock, product_lock, consume_lock, index, same_lock, Op, lock, asleep,
  pull, Role, System, set_holder, woken, Move, begin, locks, unlocks, notifies, waits, wakes, pulls,
  step, Steps, stay, later, init,
}
use postfix_edm.Client.Locks.Held.{
  holds, IsBalanced, Round-holds, Round-IsBalanced, woken-holds, woken-IsBalanced, IsHeldRight,
  Change, kept, taken, dropped, IsHeldRight-change,
}

pub init-IsHeldRight : IsHeldRight init
init-IsHeldRight = record { balanced = λ i. tt; owner = λ i l h. cc; owned = λ i l h. cc }

lock_at : ℕ → Lock
lock_at n =
    if n == 0
    then child_lock
    else if n == 1
    then command_lock
    else if n == 2
    then product_lock
    else consume_lock

lock_at-index : (l : Lock) → lock_at (index l) ≡ l
unfolding lock_at
lock_at-index child_lock = refl
lock_at-index command_lock = refl
lock_at-index product_lock = refl
lock_at-index consume_lock = refl

pub same_lock→eq : (l k : Lock) → same_lock l k ≡ true → l ≡ k
same_lock→eq l k e =
    sym (lock_at-index l) ∙ ap lock_at ((==_iff (index l) (index k)).0 e) ∙ lock_at-index k

same_lock_sym : (l k : Lock) (b : Bool) → same_lock l k ≡ b → same_lock k l ≡ b
same_lock_sym l k true e = ground arith
same_lock_sym l k false e = ground arith

-- A lock that is taken, and one that is let go.
Change-lock :
    (i : ℕ) (l k : Lock) (before ops : List Op) (holder : Lock → Option ℕ)
    → holder k ≡ none
    → holds k ops ≡ true
    → before ≡ lock k ∷ ops
    → Change i l before ops (holder l) (set_holder k (some i) holder l)
Change-lock i l k before ops holder free held e = rw e (elim (Bool-cases (same_lock k l)) [
  | inl same ↦
      let eq : k ≡ l = same_lock→eq k l same in
      rw same (taken (ap holder (sym eq) ∙ free) refl (ap (λ m. holds m ops) (sym eq) ∙ held))
  | inr other ↦ rw other (kept refl (sym (rw (same_lock_sym k l false other) refl)))
])

Change-drop :
    (i : ℕ) (l k : Lock) (before ops : List Op) (holder : Lock → Option ℕ)
    → ((m : Lock) → holds m before ≡ (if same_lock m k then true else holds m ops))
    → holds k ops ≡ false
    → Change i l before ops (holder l) (set_holder k none holder l)
Change-drop i l k before ops holder had held = elim (Bool-cases (same_lock k l)) [
  | inl same ↦
      let eq : k ≡ l = same_lock→eq k l same in
      rw same (
        dropped (had l ∙ rw (same_lock_sym k l true same) refl) refl
          (ap (λ m. holds m ops) (sym eq) ∙ held))
  | inr other ↦ rw other (kept refl (sym (had l ∙ rw (same_lock_sym k l false other) refl)))
]

-- The balance of what is to be done, seen through an equation.
balance : {i : ℕ} {s : System} {ops : List Op} → IsHeldRight s → s.todo i ≡ ops → IsBalanced ops
balance {i} ok e = subst IsBalanced e (ok.balanced i)

twice : (b c : Bool) → (if b then true else c) ≡ (if b then true else (if b then false else c))
twice true c = refl
twice false c = refl

-- A broadcast changes nothing that is held.
all_woken :
    (s : System) (l : Lock)
    → IsHeldRight s
    → IsHeldRight (record s { todo = λ j. woken l (s.todo j) })
all_woken s l ok = record {
  balanced = λ i. woken-IsBalanced l (s.todo i) (ok.balanced i);
  owner = λ i m h. ok.owner i m (sym (woken-holds m l (s.todo i)) ∙ h);
  owned = λ i m h. woken-holds m l (s.todo i) ∙ ok.owned i m h;
}

pub IsHeldRight-Move :
    (role : ℕ → Role) (i : ℕ) (s t : System) → Move role i s t → IsHeldRight s → IsHeldRight t
IsHeldRight-Move role i s _ (begin {ops} e round) ok =
    IsHeldRight-change s i ops s.holder ok (Round-IsBalanced round)
      (λ l. kept refl (rw e (Round-holds l round)))
IsHeldRight-Move role i s _ (locks {l} {ops} e free) ok =
    let bal = balance ok e in
    IsHeldRight-change s i ops _ ok bal.1 (λ m. Change-lock i m l _ ops s.holder free bal.0 e)
IsHeldRight-Move role i s _ (unlocks {l} {ops} e) ok =
    let bal = balance ok e in
    IsHeldRight-change s i ops _ ok bal.1
      (λ m. Change-drop i m l _ ops s.holder (λ n. rw e refl) bal.0)
IsHeldRight-Move role i s _ (waits {l} {ops} e) ok =
    let bal = balance ok e in
    IsHeldRight-change s i (asleep l ∷ ops) _ ok bal (λ m.
      Change-drop i m l _ (asleep l ∷ ops) s.holder
        (λ n. rw e (twice (same_lock n l) (holds n ops)))
        (rw ((==_iff (index l) (index l)).1 refl) refl))
IsHeldRight-Move role i s _ (wakes {l} {ops} e) ok =
    IsHeldRight-change s i (lock l ∷ ops) _ ok (balance ok e) (λ m. kept refl (rw e refl))
IsHeldRight-Move role i s _ (pulls {ops} e) ok =
    IsHeldRight-change s i ops _ ok (balance ok e).1 (λ m. kept refl (rw e refl))
IsHeldRight-Move role i s _ (notifies {l} {ops} e) ok =
    IsHeldRight-change (record s { todo = λ j. woken l (s.todo j) }) i ops s.holder
      (all_woken s l ok) (balance ok e).1 (λ m. kept refl (rw e refl))

pub IsHeldRight-Steps :
    {role : ℕ → Role} {s t : System} → Steps role s t → IsHeldRight s → IsHeldRight t
IsHeldRight-Steps stay ok = ok
IsHeldRight-Steps {role} (later {t} {u} r (step i m)) ok =
    IsHeldRight-Move role i t u m (IsHeldRight-Steps r ok)

-- Whatever the threads do, in whatever order, from the start on: where two children are to pull mails,
-- they are one, and it holds the lock of the children.
pub pulls_alone :
    {role : ℕ → Role} {s : System} (i j : ℕ) {ops ops' : List Op}
    → Steps role init s
    → s.todo i ≡ pull ∷ ops
    → s.todo j ≡ pull ∷ ops'
    → (i ≡ j) × (s.holder child_lock ≡ some i)
pulls_alone i j r e f =
    let ok = IsHeldRight-Steps r init-IsHeldRight in
    let first = ok.owner i child_lock (rw e (balance {i = i} ok e).0) in
    let second = ok.owner j child_lock (rw f (balance {i = j} ok f).0) in (cc, first)
