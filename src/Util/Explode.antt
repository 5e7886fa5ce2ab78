-- ===== src/Util/Explode.antt =====
-- What `CStrExplode` makes of a string.
use postfix_edm.Prelude.{
  ℕ, ◌+◌, ◌^◌, ◌<◌, ◌≤◌, ◌≡◌, refl, sym, ◌∙◌, List, [], ◌∷◌, ◌++◌, false, ◌==◌, if◌then◌else◌,
  arith, length, append_assoc, append-nil, inl, inr, Bool-cases,
}
use postfix_edm.Prelude.Text.{has, has-append}
use postfix_edm.Buffer.{add32}
use postfix_edm.Util.{str_explode, count_items, split_items}

-- The items in a row, with the seperator between them.
abbrev pub join : ℕ → List (List ℕ) → List ℕ
join seperator [] = []
join seperator (item ∷ []) = item
join seperator (item ∷ next ∷ items) = item ++ (seperator ∷ join seperator (next ∷ items))

abbrev pub NoneHas : ℕ → List (List ℕ) → Type 0
NoneHas seperator [] = Unit
NoneHas seperator (item ∷ items) = (has seperator item ≡ false) × NoneHas seperator items

-- How many times the seperator stands in the string.
abbrev occurrences : ℕ → List ℕ → ℕ
occurrences seperator [] = 0
occurrences seperator (c ∷ s) = (if c == seperator then 1 else 0) + occurrences seperator s

occurrences-le-length : (seperator : ℕ) (s : List ℕ) → occurrences seperator s ≤ length s
occurrences-le-length seperator [] = omega arith
occurrences-le-length seperator (c ∷ s) = ground (arith, occurrences-le-length seperator s)

count_items_lem :
    (seperator cnt : ℕ) (s : List ℕ)
    → cnt + length s < 2 ^ 32
    → count_items seperator s cnt ≡ cnt + occurrences seperator s
unfolding count_items
count_items_lem seperator cnt [] small = omega arith
count_items_lem seperator cnt (c ∷ s) small = elim (Bool-cases (c == seperator)) [
  | inl e ↦
      let next : add32 cnt 1 ≡ cnt + 1 = omega arith in
      rw (e, next) (count_items_lem seperator (cnt + 1) s (omega arith) ∙ omega arith)
  | inr e ↦ rw e (count_items_lem seperator cnt s (omega arith) ∙ omega arith)
]

split_items-length :
    (seperator : ℕ) (start s : List ℕ)
    → length (split_items seperator start s) ≡ 1 + occurrences seperator s
unfolding split_items
split_items-length seperator start [] = refl
split_items-length seperator start (c ∷ s) = elim (Bool-cases (c == seperator)) [
  | inl e ↦ rw e (omega (arith, split_items-length seperator [] s))
  | inr e ↦ rw e (split_items-length seperator (start ++ (c ∷ [])) s ∙ omega arith)
]

join-cons :
    (seperator : ℕ) (item : List ℕ) (items : List (List ℕ))
    → 0 < length items
    → join seperator (item ∷ items) ≡ item ++ (seperator ∷ join seperator items)
join-cons seperator item [] h = absurd (omega arith)
join-cons seperator item (next ∷ items) h = refl

join-split_items :
    (seperator : ℕ) (start s : List ℕ) → join seperator (split_items seperator start s) ≡ start ++ s
unfolding split_items
join-split_items seperator start [] = sym (append-nil start)
join-split_items seperator start (c ∷ s) = elim (Bool-cases (c == seperator)) [
  | inl e ↦
      let same : seperator ≡ c = ground arith in
      rw e (
        join-cons seperator start (split_items seperator [] s)
          (omega (arith, split_items-length seperator [] s))
        ∙ (λ i. start ++ (same i ∷ join-split_items seperator [] s i)))
  | inr e ↦ rw e (join-split_items seperator (start ++ (c ∷ [])) s ∙ append_assoc start (c ∷ []) s)
]

split_items-NoneHas :
    (seperator : ℕ) (start s : List ℕ)
    → has seperator start ≡ false
    → NoneHas seperator (split_items seperator start s)
unfolding split_items
split_items-NoneHas seperator start [] h = (h, tt)
split_items-NoneHas seperator start (c ∷ s) h = elim (Bool-cases (c == seperator)) [
  | inl e ↦ rw e (h, split_items-NoneHas seperator [] s refl)
  | inr e ↦ rw e (
      split_items-NoneHas seperator (start ++ (c ∷ [])) s
        (has-append seperator start (c ∷ []) ∙ rw (h, e)))
]

-- A string of fewer than 2^32 - 1 characters is cut at each seperator and nowhere else: the items
-- joined by the seperator are the string, and none holds it. As many items are stored as were counted
-- for the list, so that none lies outside it.
pub str_explode_lem :
    (str : List ℕ) (seperator : ℕ)
    → length str + 1 < 2 ^ 32
    → (join seperator (str_explode str seperator).item_list ≡ str)
      × NoneHas seperator (str_explode str seperator).item_list
      × (length (str_explode str seperator).item_list ≡ (str_explode str seperator).item_cnt)
unfolding str_explode
str_explode_lem str seperator small = (
  join-split_items seperator [] str,
  split_items-NoneHas seperator [] str refl,
  split_items-length seperator [] str ∙ sym (count_items_lem seperator 1 str (omega arith)),
)
