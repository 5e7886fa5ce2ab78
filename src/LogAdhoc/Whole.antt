-- ===== src/LogAdhoc/Whole.antt =====
-- The delays that are reported add up to the whole.
use postfix_edm.Prelude.{
  ℕ, ◌+◌, ◌-◌, ◌*◌, ◌/◌, ◌%◌, ◌^◌, ◌≤◌, ◌<◌, ◌≡◌, ◌⊎◌, refl, sym, ap, ◌∙◌, Bool, true, false, arith,
  ltb, if◌then◌else◌, inl, inr, Bool-cases,
}
use postfix_edm.Prelude.Int.{pos_part}
use postfix_edm.LogAdhoc.{
  Timeval, DeltaTime, Delays, MsgStats, delta, time_stamped, end_time, delays, delays_until,
}
use postfix_edm.LogAdhoc.Sums.{stamp, micros, delta-stamp}

-- A clock reading; the seconds are 0 where there is no time stamp.
pub record Stamp : Type 0 where
  pub sec : ℕ
  pub usec : ℕ

abbrev pub time : Stamp → Timeval
time t = stamp t.sec t.usec

abbrev pub micro : Stamp → ℕ
micro t = micros t.sec t.usec

abbrev pub IsReading : Stamp → Type 0
IsReading t = (t.sec < 2 ^ 31) × (t.usec < 1000000)

-- A delay in microseconds.
abbrev pub length_of : DeltaTime → ℕ
length_of d = pos_part d.dt_sec * 1000000 + pos_part d.dt_usec

measure :
    (x y : Stamp)
    → IsReading x
    → IsReading y
    → length_of (delta (time x) (time y)) ≡ micro x - micro y
measure x y v w =
    ap length_of (delta-stamp x.sec x.usec y.sec y.usec v.0 w.0 v.1 w.1) ∙ whole (micro x - micro y)
  where
    whole : (n : ℕ) → n / 1000000 * 1000000 + n % 1000000 ≡ n
    whole n = omega arith

abbrev pub stats_of : Stamp → Stamp → Stamp → Stamp → Stamp → MsgStats
stats_of i a h c d = record {
  incoming_arrival = time i;
  active_arrival = time a;
  agent_handoff = time h;
  conn_setup_done = time c;
  deliver_done = time d;
}

-- Where there is a stamp, it lies between the one before it and the end.
abbrev pub IsBetween : Stamp → Stamp → Stamp → Type 0
IsBetween before t n = (t.sec ≡ 0) ⊎ ((micro before ≤ micro t) × (micro t ≤ micro n))

-- The parts, in microseconds.
abbrev pub parts : Delays → ℕ
parts d = length_of d.pdelay + length_of d.adelay + length_of d.sdelay + length_of d.xdelay

module _ (i a h c d n : Stamp) (vi : IsReading i) (va : IsReading a) (vh : IsReading h)
    (vc : IsReading c) (vn : IsReading n) (later : micro i ≤ micro n) (ba : IsBetween i a n)
    (bh : IsBetween a h n) (bc : IsBetween h c n) where
  adds_up : parts (delays_until (stats_of i a h c d) (time n)) ≡ micro n - micro i
  unfolding delays_until
  adds_up = elim (Bool-cases (ltb 0 (a.sec + 0))) [
    | inr no_queue ↦ rw no_queue (ground (arith, measure n i vn vi))
    | inl queue ↦ elim (Bool-cases (ltb 0 (h.sec + 0))) [
      | inr no_agent ↦ rw (queue, no_agent) (ground (arith, measure a i va vi, measure n a vn va))
      | inl agent ↦ elim (Bool-cases (ltb 0 (c.sec + 0))) [
        | inr no_client ↦
            rw (queue, agent, no_client)
              (ground (arith, measure a i va vi, measure h a vh va, measure n h vn vh))
        | inl client ↦
            rw (queue, agent, client)
              (ground
                (arith, measure a i va vi, measure h a vh va, measure c h vc vh, measure n c vn vc))
      ]
    ]
  ]

  whole_delay : length_of (delays_until (stats_of i a h c d) (time n)).delay ≡ micro n - micro i
  unfolding delays_until
  whole_delay = elim (Bool-cases (ltb 0 (a.sec + 0))) [
    | inr no_queue ↦ rw no_queue (measure n i vn vi)
    | inl queue ↦ elim (Bool-cases (ltb 0 (h.sec + 0))) [
      | inr no_agent ↦ rw (queue, no_agent) (measure n i vn vi)
      | inl agent ↦ elim (Bool-cases (ltb 0 (c.sec + 0))) [
        | inr no_client ↦ rw (queue, agent, no_client) (measure n i vn vi)
        | inl client ↦ rw (queue, agent, client) (measure n i vn vi)
      ]
    ]
  ]

-- When the message is done: the stamp for that, or the clock's reading.
abbrev pub ending : Stamp → Stamp → Stamp
ending d clock = if time_stamped (time d) then d else clock

end_time-ending :
    (i a h c d clock : Stamp) → end_time (stats_of i a h c d) (time clock) ≡ time (ending d clock)
unfolding end_time
end_time-ending i a h c d clock = choose (time_stamped (time d)) d clock
  where
    choose : (b : Bool) (x y : Stamp) → (if b then time x else time y) ≡ time (if b then x else y)
    choose true x y = refl
    choose false x y = refl

-- While the clock does not go back, the four parts of the delay that are reported (before the queue
-- manager, in it, connecting and transmitting) add up to the whole, and that is the time from the
-- arrival to the end, in microseconds, whichever of the stamps in between are missing. The stamps
-- have fewer than 2^31 seconds and less than a million microseconds, and each that is there lies
-- between the one before it and the end.
pub delays_add_up :
    (i a h c d clock : Stamp)
    → IsReading i
    → IsReading a
    → IsReading h
    → IsReading c
    → IsReading (ending d clock)
    → micro i ≤ micro (ending d clock)
    → IsBetween i a (ending d clock)
    → IsBetween a h (ending d clock)
    → IsBetween h c (ending d clock)
    → (parts (delays (stats_of i a h c d) (time clock))
        ≡ length_of (delays (stats_of i a h c d) (time clock)).delay)
      × (length_of (delays (stats_of i a h c d) (time clock)).delay
          ≡ micro (ending d clock) - micro i)
unfolding delays
delays_add_up i a h c d clock vi va vh vc vn later ba bh bc =
    let until : Timeval → Delays = delays_until (stats_of i a h c d) in
    let n = ending d clock in
    let all =
      ap (λ t. length_of (until t).delay) (end_time-ending i a h c d clock)
      ∙ whole_delay i a h c d n vi va vh vc vn later ba bh bc in
    (
      ap (λ t. parts (until t)) (end_time-ending i a h c d clock)
          ∙ adds_up i a h c d n vi va vh vc vn later ba bh bc
          ∙ sym all,
      all,
    )
