-- ===== src/LogAdhoc.antt =====
-- log_adhoc.c: the delays that `log_adhoc` reports, from the time stamps of a message. `int` is a
-- 32-bit signed integer, and a difference of stamps is cut to it.
pub mod Sums
pub mod Whole
mod Tests
use postfix_edm.Prelude.{ℕ, zero, suc, ◌+◌, ◌-◌, ◌%◌, ◌^◌, Bool, ltb, if◌then◌else◌}
use postfix_edm.Prelude.Int.{ℤ, pos, negsuc, pos_part, neg_part, ◌+ℤ◌, ◌-ℤ◌, ltb_ℤ}

-- `struct timeval`.
pub record Timeval : Type 0 where
  pub tv_sec : ℤ
  pub tv_usec : ℤ

-- `DELTA_TIME`.
pub record DeltaTime : Type 0 where
  pub dt_sec : ℤ
  pub dt_usec : ℤ

abbrev signed : ℕ → ℤ
signed w = if ltb w (2 ^ 31) then pos w else negsuc (2 ^ 32 - w - 1)

-- The conversion to `int`.
unfoldable pub to_int : ℤ → ℤ
to_int (pos n) = signed (n % 2 ^ 32)
to_int (negsuc n) = signed (2 ^ 32 - 1 - n % 2 ^ 32)

abbrev pub million : ℕ
million = 1000000

-- The two loops of `DELTA`; a round of the first raises the microseconds by a million, and one of the
-- second lowers them by as much.
unfoldable pub borrow : ℕ → DeltaTime → DeltaTime
borrow zero d = d
borrow (suc fuel) d =
    let next : DeltaTime = record {
      dt_sec = to_int (d.dt_sec -ℤ pos 1);
      dt_usec = to_int (d.dt_usec +ℤ pos million);
    } in
    let rest = borrow fuel next in if ltb_ℤ d.dt_usec (pos 0) then rest else d

unfoldable pub carry : ℕ → DeltaTime → DeltaTime
carry zero d = d
carry (suc fuel) d =
    let next : DeltaTime = record {
      dt_sec = to_int (d.dt_sec +ℤ pos 1);
      dt_usec = to_int (d.dt_usec -ℤ pos million);
    } in
    let rest = carry fuel next in if ltb_ℤ d.dt_usec (pos million) then d else rest

-- `DELTA_ZERO`.
abbrev pub delta_zero : DeltaTime
delta_zero = record { dt_sec = pos 0; dt_usec = pos 0 }

-- The last `if` of `DELTA`: a clock that went back counts as no time.
unfoldable pub clamp : DeltaTime → DeltaTime
clamp d = if ltb_ℤ d.dt_sec (pos 0) then delta_zero else d

abbrev pub difference : Timeval → Timeval → DeltaTime
difference y z = record {
  dt_sec = to_int (y.tv_sec -ℤ z.tv_sec);
  dt_usec = to_int (y.tv_usec -ℤ z.tv_usec);
}

abbrev borrowed : DeltaTime → DeltaTime
borrowed d = borrow (neg_part d.dt_usec) d

abbrev carried : DeltaTime → DeltaTime
carried d = carry (pos_part d.dt_usec) d

-- `DELTA`. There is fuel for a round for each microsecond, where each round takes a million.
unfoldable pub delta : Timeval → Timeval → DeltaTime
delta y z = clamp (carried (borrowed (difference y z)))

-- `TIME_STAMPED`.
abbrev pub time_stamped : Timeval → Bool
time_stamped t = ltb_ℤ (pos 0) t.tv_sec

-- The time stamps of `MSG_STATS`.
pub record MsgStats : Type 0 where
  pub incoming_arrival : Timeval
  pub active_arrival : Timeval
  pub agent_handoff : Timeval
  pub conn_setup_done : Timeval
  pub deliver_done : Timeval

pub record Delays : Type 0 where
  pub delay : DeltaTime
  pub pdelay : DeltaTime
  pub adelay : DeltaTime
  pub sdelay : DeltaTime
  pub xdelay : DeltaTime

-- `clock` is what GETTIMEOFDAY returns.
unfoldable pub end_time : MsgStats → Timeval → Timeval
end_time s clock = if time_stamped s.deliver_done then s.deliver_done else clock

-- The delays, once the end is known.
unfoldable pub delays_until : MsgStats → Timeval → Delays
delays_until s now =
    let base : Delays = record {
      delay = delta now s.incoming_arrival;
      pdelay = delta_zero;
      adelay = delta_zero;
      sdelay = delta_zero;
      xdelay = delta_zero;
    } in
    if time_stamped s.active_arrival
    then (let d : Delays = record base { pdelay = delta s.active_arrival s.incoming_arrival } in
        if time_stamped s.agent_handoff
        then (let d' : Delays = record d { adelay = delta s.agent_handoff s.active_arrival } in
            if time_stamped s.conn_setup_done
            then record d' {
              sdelay = delta s.conn_setup_done s.agent_handoff;
              xdelay = delta now s.conn_setup_done;
            }
            else record d' { xdelay = delta now s.agent_handoff })
        else record d { adelay = delta now s.active_arrival })
    else record base { pdelay = delta now s.incoming_arrival }

unfoldable pub delays : MsgStats → Timeval → Delays
delays s clock = delays_until s (end_time s clock)
