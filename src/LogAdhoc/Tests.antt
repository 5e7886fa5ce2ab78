-- ===== src/LogAdhoc/Tests.antt =====
-- The delays of a message, and the theorems at concrete inputs.
use postfix_edm.Prelude.{◌≡◌, arith}
use postfix_edm.LogAdhoc.{delays}
use postfix_edm.LogAdhoc.Whole.{Stamp, time, stats_of, parts, length_of, delays_add_up}

abbrev missing : Stamp
missing = record { sec = 0; usec = 0 }

-- Mail that arrives at 10.9 s, enters the queue at 11.2 s and is handed to an agent at 11.3 s, without
-- a connection; the clock reads 12.1 s.
abbrev arrived : Stamp
arrived = record { sec = 10; usec = 900000 }

abbrev queued : Stamp
queued = record { sec = 11; usec = 200000 }

abbrev handed_off : Stamp
handed_off = record { sec = 11; usec = 300000 }

abbrev clock : Stamp
clock = record { sec = 12; usec = 100000 }

delays_add_up_example :
    (parts (delays (stats_of arrived queued handed_off missing missing) (time clock))
      ≡ length_of (delays (stats_of arrived queued handed_off missing missing) (time clock)).delay)
    × (length_of (delays (stats_of arrived queued handed_off missing missing) (time clock)).delay
        ≡ 1200000)
delays_add_up_example =
    delays_add_up arrived queued handed_off missing missing clock (omega arith) (omega arith)
      (omega arith) (omega arith) (omega arith) (omega arith) (omega arith) (omega arith)
      (omega arith)
