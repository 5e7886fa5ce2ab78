-- ===== src/Client/Locks/Crossing.antt =====
-- The worker thread and a child that take the two locks of producer and consumer in opposite orders.
use postfix_edm.Prelude.{
  ℕ, ◌≡◌, refl, sym, ap, ◌∙◌, List, [], ◌∷◌, none, some, true, false, ◌==◌, inl, inr, Bool-cases,
  ==_iff,
}
use mathlib.Core.Path.{subst}
use postfix_edm.Client.Locks.{
  Lock, child_lock, product_lock, consume_lock, same_lock, index, Op, lock, unlock, notify_all,
  wait, asleep, pull, Role, worker_thread, child, Round, mails, idle_child, System, set_holder,
  set_todo, woken, Move, begin, locks, unlocks, notifies, waits, wakes, pulls, step, Steps, stay,
  later, init,
}
use postfix_edm.Client.Locks.Held.{IsHeldRight, holds}
use postfix_edm.Client.Locks.Exclusion.{IsHeldRight-Steps, init-IsHeldRight, same_lock→eq}

-- Thread `p` holds the product lock and is to take the consume lock, and `c` the other way round.
pub record IsCrossed (p c : ℕ) (s : System) : Type 0 where
  pub after_p : List Op
  pub after_c : List Op
  pub producer : s.todo p ≡ lock consume_lock ∷ after_p
  pub consumer : s.todo c ≡ lock product_lock ∷ after_c
  pub has_product : s.holder product_lock ≡ some p
  pub has_consume : s.holder consume_lock ≡ some c

-- What a thread that moves had before it: `q` does not, where the two are different.
unmoved :
    (i q : ℕ) (ops before mine : List Op) (todo : ℕ → List Op)
    → todo i ≡ before
    → todo q ≡ mine
    → (before ≡ mine → ⊥)
    → set_todo i ops todo q ≡ mine
unmoved i q ops before mine todo e f ne = elim (Bool-cases (i == q)) [
  | inl same ↦ absurd (ne (sym e ∙ ap todo ((==_iff i q).0 same) ∙ f))
  | inr other ↦ rw other f
]

first_lock : {l k : Lock} {ops ops' : List Op} → lock l ∷ ops ≡ lock k ∷ ops' → l ≡ k
first_lock e = cc

-- A thread whose lock another holds stays where it is.
blocked :
    (role : ℕ → Role) (i q r : ℕ) (k : Lock) {ops : List Op} (s t : System)
    → Move role i s t
    → s.todo q ≡ lock k ∷ ops
    → s.holder k ≡ some r
    → t.todo q ≡ lock k ∷ ops
blocked role i q r k {ops} s _ (begin {ops = new} e round) f taken =
    unmoved i q new [] (lock k ∷ ops) s.todo e f (λ x. cc)
blocked role i q r k {ops} s _ (locks {l} {ops = new} e free) f taken =
    unmoved i q new (lock l ∷ new) (lock k ∷ ops) s.todo e f (λ x.
      let same : l ≡ k = first_lock x in
      let none_k : s.holder k ≡ none = ap s.holder (sym same) ∙ free in cc)
blocked role i q r k {ops} s _ (unlocks {l} {ops = new} e) f taken =
    unmoved i q new (unlock l ∷ new) (lock k ∷ ops) s.todo e f (λ x. cc)
blocked role i q r k {ops} s _ (waits {l} {ops = new} e) f taken =
    unmoved i q (asleep l ∷ new) (wait l ∷ new) (lock k ∷ ops) s.todo e f (λ x. cc)
blocked role i q r k {ops} s _ (wakes {l} {ops = new} e) f taken =
    unmoved i q (lock l ∷ new) (asleep l ∷ new) (lock k ∷ ops) s.todo e f (λ x. cc)
blocked role i q r k {ops} s _ (pulls {ops = new} e) f taken =
    unmoved i q new (pull ∷ new) (lock k ∷ ops) s.todo e f (λ x. cc)
blocked role i q r k {ops} s _ (notifies {l} {ops = new} e) f taken =
    unmoved i q new (notify_all l ∷ new) (lock k ∷ ops) (λ j. woken l (s.todo j)) (rw e refl)
      (rw f refl) (λ x. cc)

-- Who lets a lock go had it, and so is no thread that waits for another.
let_go :
    (role : ℕ → Role) (i q : ℕ) (l k m : Lock) (before : List Op) {ops : List Op} (s : System)
    → IsHeldRight s
    → (before ≡ lock k ∷ ops → ⊥)
    → holds m before ≡ true
    → s.todo i ≡ before
    → s.todo q ≡ lock k ∷ ops
    → s.holder l ≡ some q
    → set_holder m none s.holder l ≡ some q
let_go role i q l k m before s ok ne had e f has = elim (Bool-cases (same_lock m l)) [
  | inl same ↦
      let its : s.holder m ≡ some i = ok.owner i m (ap (holds m) e ∙ had) in
      let eq : m ≡ l = same_lock→eq m l same in
      let one : i ≡ q = cc in absurd (ne (sym e ∙ ap s.todo one ∙ f))
  | inr other ↦ rw other has
]

-- A lock stays with a holder that waits for another.
still_held :
    (role : ℕ → Role) (i q : ℕ) (l k : Lock) {ops : List Op} (s t : System)
    → Move role i s t
    → IsHeldRight s
    → s.todo q ≡ lock k ∷ ops
    → s.holder l ≡ some q
    → t.holder l ≡ some q
still_held role i q l k s _ (begin e round) ok f has = has
still_held role i q l k s _ (notifies e) ok f has = has
still_held role i q l k s _ (wakes e) ok f has = has
still_held role i q l k s _ (pulls e) ok f has = has
still_held role i q l k s _ (locks {l = m} e free) ok f has = elim (Bool-cases (same_lock m l)) [
  | inl same ↦
      let none_l : s.holder l ≡ none = ap s.holder (sym (same_lock→eq m l same)) ∙ free in
      absurd (cc)
  | inr other ↦ rw other has
]
still_held role i q l k s _ (unlocks {l = m} {ops = new} e) ok f has =
    let_go role i q l k m (unlock m ∷ new) s ok (λ x. cc)
      (rw ((==_iff (index m) (index m)).1 refl) refl) e f has
still_held role i q l k s _ (waits {l = m} {ops = new} e) ok f has =
    let_go role i q l k m (wait m ∷ new) s ok (λ x. cc)
      (rw ((==_iff (index m) (index m)).1 refl) refl) e f has

pub IsCrossed-Steps :
    {role : ℕ → Role} {s t : System} (p c : ℕ)
    → Steps role s t
    → IsHeldRight s
    → IsCrossed p c s
    → IsCrossed p c t
IsCrossed-Steps p c stay ok x = x
IsCrossed-Steps {role} p c (later {t} {u} r (step i m)) ok x =
    let right = IsHeldRight-Steps r ok in
    let y = IsCrossed-Steps p c r ok x in
    record {
      after_p = y.after_p;
      after_c = y.after_c;
      producer = blocked role i p c consume_lock t u m y.producer y.has_consume;
      consumer = blocked role i c p product_lock t u m y.consumer y.has_product;
      has_product =
          still_held role i p product_lock consume_lock t u m right y.producer y.has_product;
      has_consume =
          still_held role i c consume_lock product_lock t u m right y.consumer y.has_consume;
    }

-- One move of a thread whose next operation is known, from a state that is reached.
module _ {role : ℕ → Role} {s0 : System} where
  begins :
      (i : ℕ) {r : Role} {s : System} {ops : List Op}
      → Steps role s0 s
      → role i ≡ r
      → s.todo i ≡ []
      → Round r ops
      → Steps role s0 (record s { todo = set_todo i ops s.todo })
  begins i {ops} run e idle round =
      later run (step i (begin idle (subst (λ r. Round r ops) (sym e) round)))

-- The child, as it finds no mail, takes the consume lock while the worker thread, as there is one, takes
-- the product lock.
crossing :
    {role : ℕ → Role} (p c : ℕ)
    → role p ≡ worker_thread
    → role c ≡ child
    → (p == c) ≡ false
    → (s : System) × Steps role init s × IsCrossed p c s
crossing {role} p c e f ne =
    let run1 = begins {role = role} {s0 = init} c {s = init} stay f refl idle_child in
    let run2 = later run1 (
      step c
        (locks {l = child_lock} {ops = pull ∷ unlock child_lock ∷ rest} (rw at_c refl) refl)) in
    let run3 = later run2 (step c (pulls {ops = unlock child_lock ∷ rest} (rw at_c refl))) in
    let run4 = later run3 (step c (unlocks {l = child_lock} {ops = rest} (rw at_c refl))) in
    let run5 =
      later run4 (
        step c (locks {l = consume_lock} {ops = lock product_lock ∷ last_c} (rw at_c refl) refl)) in
    let run6 = begins p run5 e (rw not_p refl) mails in
    let run7 =
      later run6 (
        step p (locks {l = product_lock} {ops = lock consume_lock ∷ last_p} (rw at_p refl) refl)) in
    (
      _,
      run7,
      record {
        after_p = last_p;
        after_c = last_c;
        producer = rw at_p refl;
        consumer = rw (not_c, at_c) refl;
        has_product = refl;
        has_consume = refl;
      },
    )
  where
    last_p : List Op
    last_p =
        notify_all consume_lock ∷ unlock consume_lock ∷ wait product_lock ∷ unlock product_lock ∷ []

    last_c : List Op
    last_c =
        notify_all product_lock ∷ unlock product_lock ∷ wait consume_lock ∷ unlock consume_lock ∷ []

    rest : List Op
    rest = lock consume_lock ∷ lock product_lock ∷ last_c

    at_c : (c == c) ≡ true
    at_c = (==_iff c c).1 refl

    at_p : (p == p) ≡ true
    at_p = (==_iff p p).1 refl

    not_c : (p == c) ≡ false
    not_c = ne

    not_p : (c == p) ≡ false
    not_p = elim (Bool-cases (c == p)) [
      | inl same ↦ absurd (let eq = (==_iff c p).0 same in let eq' = (==_iff p c).1 (sym eq) in cc)
      | inr it ↦ it
    ]

-- In every state that can follow, the two wait for each other.
pub StaysCrossed : (ℕ → Role) → ℕ → ℕ → System → Type 0
StaysCrossed role p c s = (t : System) → Steps role s t → IsCrossed p c t

-- Where there are the worker thread and a child, the system reaches a state from which on, whatever any
-- thread does, each of the two waits for the lock the other holds.
pub deadlock :
    {role : ℕ → Role} (p c : ℕ)
    → role p ≡ worker_thread
    → role c ≡ child
    → (p == c) ≡ false
    → (s : System) × Steps role init s × StaysCrossed role p c s
unfolding StaysCrossed
deadlock {role} p c e f ne =
    let x = crossing {role = role} p c e f ne in
    (x.0, x.1, λ t run. IsCrossed-Steps p c run (IsHeldRight-Steps x.1 (init-IsHeldRight)) x.2)
