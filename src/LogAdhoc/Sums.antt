-- ===== src/LogAdhoc/Sums.antt =====
-- What `DELTA` computes, and how the delays add up.
use postfix_edm.Prelude.{
  ℕ, zero, suc, ◌+◌, ◌-◌, ◌*◌, ◌/◌, ◌%◌, ◌^◌, ◌≤◌, ◌<◌, ◌≡◌, refl, ap, ◌∙◌, arith, ltb, inl, inr,
  Bool-cases, lt→ltb,
}
use postfix_edm.Prelude.Int.{
  ℤ, pos, negsuc, pos_part, neg_part, ◌+ℤ◌, ◌-ℤ◌, ltb_ℤ, -ℤ_parts, eq_of_parts,
}
use postfix_edm.LogAdhoc.{Timeval, DeltaTime, to_int, borrow, carry, clamp, delta}

-- The conversion to `int` keeps what fits.
to_int_fits : (x : ℤ) → pos_part x < 2 ^ 31 → neg_part x ≤ 2 ^ 31 → to_int x ≡ x
unfolding to_int
to_int_fits (pos n) h k = ground arith
to_int_fits (negsuc n) h k = ground arith

-- The loops stop at once within their bounds.
borrow_done : (fuel : ℕ) (d : DeltaTime) → neg_part d.dt_usec ≡ 0 → borrow fuel d ≡ d
unfolding borrow
borrow_done zero d h = refl
borrow_done (suc fuel) d h = ground arith

carry_done : (fuel : ℕ) (d : DeltaTime) → pos_part d.dt_usec < 1000000 → carry fuel d ≡ d
unfolding carry
carry_done zero d h = refl
carry_done (suc fuel) d h = ground arith

-- A time stamp of `s` seconds and `u` microseconds, and how many microseconds that is.
abbrev pub stamp : ℕ → ℕ → Timeval
stamp s u = record { tv_sec = pos s; tv_usec = pos u }

abbrev pub micros : ℕ → ℕ → ℕ
micros s u = s * 1000000 + u

-- A delay of `n` microseconds.
abbrev pub span : ℕ → DeltaTime
span n = record { dt_sec = pos (n / 1000000); dt_usec = pos (n % 1000000) }

-- What `DELTA` makes of its difference once the microseconds are in order.
clamp-span :
    (d : DeltaTime) (m n : ℕ)
    → neg_part d.dt_usec ≡ 0
    → pos_part d.dt_usec < 1000000
    → pos_part d.dt_sec * 1000000 + pos_part d.dt_usec + n ≡ m + neg_part d.dt_sec * 1000000
    → clamp d ≡ span (m - n)
unfolding clamp
clamp-span d m n zero_neg small e = elim (Bool-cases (ltb_ℤ d.dt_sec (pos 0))) [
  | inl negative ↦ let none_left : 0 ≡ m - n = ground arith in rw negative (ap span none_left)
  | inr positive ↦
      let sec : d.dt_sec ≡ pos ((m - n) / 1000000) = eq_of_parts _ _ (ground arith) in
      let usec : d.dt_usec ≡ pos ((m - n) % 1000000) = eq_of_parts _ _ (ground arith) in
      rw positive (λ i. record { dt_sec = sec i; dt_usec = usec i })
]

-- The loops on a difference of microseconds that lies within a million.
abbrev settled : DeltaTime → DeltaTime
settled d = let b = borrow (neg_part d.dt_usec) d in carry (pos_part b.dt_usec) b

settled_pos :
    (x : ℤ) (n : ℕ)
    → n < 1000000
    → settled (record { dt_sec = x; dt_usec = pos n }) ≡ record { dt_sec = x; dt_usec = pos n }
unfolding borrow
settled_pos x n h = carry_done _ _ h

settled_neg :
    (x : ℤ) (k : ℕ)
    → suc k < 1000000
    → pos_part x < 2 ^ 31
    → neg_part x < 2 ^ 31
    → settled (record { dt_sec = x; dt_usec = negsuc k })
      ≡ record { dt_sec = x -ℤ pos 1; dt_usec = pos (1000000 - suc k) }
settled_neg x k h p n =
    ap (λ (b : DeltaTime). carry (pos_part b.dt_usec) b) once ∙ carry_done _ _ (omega arith)
  where
    sec : to_int (x -ℤ pos 1) ≡ x -ℤ pos 1
    sec = to_int_fits (x -ℤ pos 1) (unfold ◌-ℤ◌ in ground arith) (unfold ◌-ℤ◌ in ground arith)

    usec : to_int (negsuc k +ℤ pos 1000000) ≡ pos (1000000 - suc k)
    usec =
        let e : negsuc k +ℤ pos 1000000 ≡ pos (1000000 - suc k) =
          eq_of_parts _ _ (unfold ◌+ℤ◌ in ground arith) in
        ap to_int e ∙ to_int_fits (pos (1000000 - suc k)) (omega arith) (omega arith)

    once :
        borrow (suc k) (record { dt_sec = x; dt_usec = negsuc k })
        ≡ record { dt_sec = x -ℤ pos 1; dt_usec = pos (1000000 - suc k) }
    once =
        unfold borrow in
        rw (lt→ltb 0 (0 + suc k) (omega arith))
          ((λ i. borrow k (record { dt_sec = sec i; dt_usec = usec i })) ∙ borrow_done k _ refl)

-- Between two time stamps `DELTA` computes the time in microseconds, or none if the clock went back.
pub delta-stamp :
    (s u s' u' : ℕ)
    → s < 2 ^ 31
    → s' < 2 ^ 31
    → u < 1000000
    → u' < 1000000
    → delta (stamp s u) (stamp s' u') ≡ span (micros s u - micros s' u')
unfolding delta
delta-stamp s u s' u' hs hs' hu hu' = elim (Bool-cases (ltb u u')) [
  | inl e ↦
      let less : u < u' = ground arith in
      let under : pos u -ℤ pos u' ≡ negsuc (u' - u - 1) = unfold ◌-ℤ◌ in ground arith in
      let usec : to_int (pos u -ℤ pos u') ≡ negsuc (u' - u - 1) = cut u u' hu hu' ∙ under in
      ap (λ d. clamp (settled d)) (λ i. record { dt_sec = sec i; dt_usec = usec i })
      ∙ ap clamp (
          settled_neg (pos s -ℤ pos s') (u' - u - 1) (omega arith) (unfold ◌-ℤ◌ in ground arith)
            (unfold ◌-ℤ◌ in ground arith))
      ∙ clamp-span _ (micros s u) (micros s' u') refl (omega arith)
          (omega (arith, -ℤ_parts (pos s -ℤ pos s') (pos 1), -ℤ_parts (pos s) (pos s')))
  | inr e ↦
      let more : u' ≤ u = ground arith in
      let over : pos u -ℤ pos u' ≡ pos (u - u') = unfold ◌-ℤ◌ in ground arith in
      let usec : to_int (pos u -ℤ pos u') ≡ pos (u - u') = cut u u' hu hu' ∙ over in
      ap (λ d. clamp (settled d)) (λ i. record { dt_sec = sec i; dt_usec = usec i })
      ∙ ap clamp (settled_pos (pos s -ℤ pos s') (u - u') (omega arith))
      ∙ clamp-span _ (micros s u) (micros s' u') refl (omega arith)
          (omega (arith, -ℤ_parts (pos s) (pos s')))
]
  where
    sec : to_int (pos s -ℤ pos s') ≡ pos s -ℤ pos s'
    sec = to_int_fits _ (unfold ◌-ℤ◌ in ground arith) (unfold ◌-ℤ◌ in ground arith)

    cut : (n m : ℕ) → n < 1000000 → m < 1000000 → to_int (pos n -ℤ pos m) ≡ pos n -ℤ pos m
    cut n m h k = to_int_fits _ (unfold ◌-ℤ◌ in ground arith) (unfold ◌-ℤ◌ in ground arith)
