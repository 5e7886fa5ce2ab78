-- ===== src/Client/Locks/Held.antt =====
-- Which locks a thread holds, by what it has yet to do.
use postfix_edm.Prelude.{
  ℕ, ◌≡◌, refl, sym, ap, ◌∙◌, List, [], ◌∷◌, Option, none, some, Bool, true, false, ◌==◌,
  if◌then◌else◌, inl, inr, Bool-cases, ==_iff, arith,
}
use postfix_edm.Client.Locks.{
  Lock, child_lock, command_lock, product_lock, consume_lock, same_lock, Op, lock, unlock,
  notify_all, wait, asleep, pull, Role, Round, status_set, no_mails, mails, stopped_thread,
  stopped_master, busy_child, idle_child, stopped_child, System, set_todo, woken,
}

abbrev pub holds : Lock → List Op → Bool
holds l [] = false
holds l (lock k ∷ ops) = if same_lock l k then false else holds l ops
holds l (unlock k ∷ ops) = if same_lock l k then true else holds l ops
holds l (notify_all k ∷ ops) = holds l ops
holds l (wait k ∷ ops) = if same_lock l k then true else holds l ops
holds l (asleep k ∷ ops) = if same_lock l k then false else holds l ops
holds l (pull ∷ ops) = holds l ops

-- A lock is let go by who holds it, no one takes a lock twice, and mails are pulled under the lock of
-- the children.
abbrev pub IsBalanced : List Op → Type 0
IsBalanced [] = Unit
IsBalanced (lock k ∷ ops) = (holds k ops ≡ true) × IsBalanced ops
IsBalanced (unlock k ∷ ops) = (holds k ops ≡ false) × IsBalanced ops
IsBalanced (notify_all k ∷ ops) = (holds k ops ≡ true) × IsBalanced ops
IsBalanced (wait k ∷ ops) = (holds k ops ≡ true) × IsBalanced ops
IsBalanced (asleep k ∷ ops) = (holds k ops ≡ true) × IsBalanced ops
IsBalanced (pull ∷ ops) = (holds child_lock ops ≡ true) × IsBalanced ops

pub Round-holds : {r : Role} {ops : List Op} (l : Lock) → Round r ops → holds l ops ≡ false
Round-holds child_lock status_set = refl
Round-holds child_lock no_mails = refl
Round-holds child_lock mails = refl
Round-holds child_lock stopped_thread = refl
Round-holds child_lock stopped_master = refl
Round-holds child_lock busy_child = refl
Round-holds child_lock idle_child = refl
Round-holds child_lock stopped_child = refl
Round-holds command_lock status_set = refl
Round-holds command_lock no_mails = refl
Round-holds command_lock mails = refl
Round-holds command_lock stopped_thread = refl
Round-holds command_lock stopped_master = refl
Round-holds command_lock busy_child = refl
Round-holds command_lock idle_child = refl
Round-holds command_lock stopped_child = refl
Round-holds product_lock status_set = refl
Round-holds product_lock no_mails = refl
Round-holds product_lock mails = refl
Round-holds product_lock stopped_thread = refl
Round-holds product_lock stopped_master = refl
Round-holds product_lock busy_child = refl
Round-holds product_lock idle_child = refl
Round-holds product_lock stopped_child = refl
Round-holds consume_lock status_set = refl
Round-holds consume_lock no_mails = refl
Round-holds consume_lock mails = refl
Round-holds consume_lock stopped_thread = refl
Round-holds consume_lock stopped_master = refl
Round-holds consume_lock busy_child = refl
Round-holds consume_lock idle_child = refl
Round-holds consume_lock stopped_child = refl

pub Round-IsBalanced : {r : Role} {ops : List Op} → Round r ops → IsBalanced ops
Round-IsBalanced status_set = (refl, (refl, (refl, tt)))
Round-IsBalanced no_mails = (refl, (refl, tt))
Round-IsBalanced mails = (refl, (refl, (refl, (refl, (refl, (refl, tt))))))
Round-IsBalanced stopped_thread = (refl, (refl, (refl, tt)))
Round-IsBalanced stopped_master = (refl, (refl, (refl, tt)))
Round-IsBalanced busy_child = (refl, (refl, (refl, tt)))
Round-IsBalanced idle_child =
    (refl, (refl, (refl, (refl, (refl, (refl, (refl, (refl, (refl, tt)))))))))
Round-IsBalanced stopped_child = (refl, (refl, (refl, tt)))

pub woken-holds : (l k : Lock) (ops : List Op) → holds l (woken k ops) ≡ holds l ops
woken-holds l k [] = refl
woken-holds l k (lock m ∷ ops) = refl
woken-holds l k (unlock m ∷ ops) = refl
woken-holds l k (notify_all m ∷ ops) = refl
woken-holds l k (wait m ∷ ops) = refl
woken-holds l k (pull ∷ ops) = refl
woken-holds l k (asleep m ∷ ops) = elim (Bool-cases (same_lock k m)) [
  | inl e ↦ rw e refl
  | inr e ↦ rw e refl
]

pub woken-IsBalanced : (k : Lock) (ops : List Op) → IsBalanced ops → IsBalanced (woken k ops)
woken-IsBalanced k [] b = b
woken-IsBalanced k (lock m ∷ ops) b = b
woken-IsBalanced k (unlock m ∷ ops) b = b
woken-IsBalanced k (notify_all m ∷ ops) b = b
woken-IsBalanced k (wait m ∷ ops) b = b
woken-IsBalanced k (pull ∷ ops) b = b
woken-IsBalanced k (asleep m ∷ ops) b = elim (Bool-cases (same_lock k m)) [
  | inl e ↦ rw e b
  | inr e ↦ rw e b
]

-- The holder of a lock is the thread that has yet to let it go.
pub record IsHeldRight (s : System) : Type 0 where
  pub balanced : (i : ℕ) → IsBalanced (s.todo i)
  pub owner : (i : ℕ) (l : Lock) → holds l (s.todo i) ≡ true → s.holder l ≡ some i
  pub owned : (i : ℕ) (l : Lock) → s.holder l ≡ some i → holds l (s.todo i) ≡ true

-- What a move of thread `i` from `before` to `ops` does to a lock.
pub data Change (i : ℕ) (l : Lock) (before ops : List Op) (old new : Option ℕ) : Type 0 where
  kept : new ≡ old → holds l ops ≡ holds l before → Change i l before ops old new
  taken : old ≡ none → new ≡ some i → holds l ops ≡ true → Change i l before ops old new
  dropped : holds l before ≡ true → new ≡ none → holds l ops ≡ false → Change i l before ops old new

-- A move that changes each lock so keeps the locks held right.
pub IsHeldRight-change :
    (s : System) (i : ℕ) (ops : List Op) (holder : Lock → Option ℕ)
    → IsHeldRight s
    → IsBalanced ops
    → ((l : Lock) → Change i l (s.todo i) ops (s.holder l) (holder l))
    → IsHeldRight (record { holder = holder; todo = set_todo i ops s.todo })
IsHeldRight-change s i ops holder ok bal change = record {
  balanced = balanced';
  owner = owner';
  owned = owned';
}
  where
    balanced' : (j : ℕ) → IsBalanced (set_todo i ops s.todo j)
    balanced' j = elim (Bool-cases (i == j)) [ inl e ↦ rw e bal | inr e ↦ rw e (ok.balanced j) ]

    mine :
        (j : ℕ)
        → (i == j) ≡ true
        → (l : Lock) → Change i l (s.todo i) ops (s.holder l) (holder l)
        → holds l ops ≡ true
        → holder l ≡ some j
    mine j e l (kept same held) h = same ∙ ok.owner i l (sym held ∙ h) ∙ ap some ((==_iff i j).0 e)
    mine j e l (taken free new held) h = new ∙ ap some ((==_iff i j).0 e)
    mine j e l (dropped had new held) h = cc

    other :
        (j : ℕ)
        → (i == j) ≡ false
        → (l : Lock) → Change i l (s.todo i) ops (s.holder l) (holder l)
        → holds l (s.todo j) ≡ true
        → holder l ≡ some j
    other j e l (kept same held) h = same ∙ ok.owner j l h
    other j e l (taken free new held) h =
        let before : s.holder l ≡ some j = ok.owner j l h in absurd (cc)
    other j e l (dropped had new held) h =
        let first : s.holder l ≡ some i = ok.owner i l had in
        let second : s.holder l ≡ some j = ok.owner j l h in
        let same : i ≡ j = cc in absurd (ground arith)

    owner' : (j : ℕ) (l : Lock) → holds l (set_todo i ops s.todo j) ≡ true → holder l ≡ some j
    owner' j l = elim (Bool-cases (i == j)) [
      | inl e ↦ rw e (mine j e l (change l))
      | inr e ↦ rw e (other j e l (change l))
    ]

    mine' :
        (j : ℕ)
        → (l : Lock) → Change i l (s.todo i) ops (s.holder l) (holder l)
        → i ≡ j
        → holder l ≡ some j
        → holds l ops ≡ true
    mine' j l (kept same held) e h = held ∙ ok.owned i l (sym same ∙ h ∙ ap some (sym e))
    mine' j l (taken free new held) e h = held
    mine' j l (dropped had new held) e h = cc

    other' :
        (j : ℕ)
        → (i == j) ≡ false
        → (l : Lock) → Change i l (s.todo i) ops (s.holder l) (holder l)
        → holder l ≡ some j
        → holds l (s.todo j) ≡ true
    other' j e l (kept same held) h = ok.owned j l (sym same ∙ h)
    other' j e l (taken free new held) h = let same : i ≡ j = cc in absurd (ground arith)
    other' j e l (dropped had new held) h = cc

    owned' : (j : ℕ) (l : Lock) → holder l ≡ some j → holds l (set_todo i ops s.todo j) ≡ true
    owned' j l = elim (Bool-cases (i == j)) [
      | inl e ↦ rw e (mine' j l (change l) ((==_iff i j).0 e))
      | inr e ↦ rw e (other' j e l (change l))
    ]
