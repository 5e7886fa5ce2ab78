-- ===== src/Server/Tests.antt =====
-- The server and the workers at concrete inputs.
use postfix_edm.Prelude.{arith, ℕ, ◌≡◌, refl, List, [], ◌∷◌, ◌++◌, Option, none, some, ◌%◌, ◌^◌}
use postfix_edm.Net.Balance.{Ends}
use postfix_edm.Server.{ClientStatus, ServerStatus, ServConn, Server, new_server}
use postfix_edm.Server.Handling.{
  status_of, conn_of, command_request, rate_request, status_request, done_request,
  server_conn_timer,
}
use postfix_edm.Server.Agreement.{IsInStep}
use postfix_edm.Server.Commands.{Arrival, ReadsBack, handle_pdus, handle_pdus_lem}
use postfix_edm.Server.Small.{IsSmall}
use postfix_edm.Server.Timeouts.{HasDistinct, examined, expired}
use postfix_edm.Server.Eviction.{AreHeard, clients, server_conn_timer_lem}
use postfix_edm.Client.{Worker, new_worker, obey}

-- The numbers in a row stand for the JSON.
abbrev printed : ServerStatus → List ℕ
printed s = s.status ∷ s.delay ∷ s.multi ∷ s.total_num ∷ s.online_client_num ∷ []

abbrev parsed : List ℕ → Option ServerStatus
parsed (a ∷ b ∷ c ∷ d ∷ e ∷ []) =
    some (record { status = a; delay = b; multi = c; total_num = d; online_client_num = e })
parsed _ = none

abbrev printed_all : List ClientStatus → List ℕ
printed_all ss = []

printed-ReadsBack : (s : ServerStatus) → IsSmall s → ReadsBack printed parsed s
printed-ReadsBack s small = record {
  read = s;
  reads = refl;
  status = refl;
  delay = refl;
  multi = refl;
}

-- A PHP client with the handle 4, and a client with the handle 5.
abbrev php : ServConn
php = record {
  handle = 4;
  ip = 10 ∷ [];
  client_type = 2;
  last_send_tick = 100;
  last_recv_tick = 100;
  sent = [];
}

abbrev cpp : ServConn
cpp = record php { handle = 5; ip = 11 ∷ []; client_type = 1 }

abbrev served : Server
served = record (new_server 1) { conns = php ∷ cpp ∷ [] }

abbrev stopped : Worker
stopped = record new_worker { status = 2; shm_status = 2 }

served-IsInStep : IsInStep parsed stopped 5 served
unfolding conn_of obey
served-IsInStep = record {
  conn = cpp;
  at = refl;
  client = refl;
  agrees = record { status = refl; delay = refl; multi = refl };
}

-- The PHP client starts the sending and sets its rate, the client asks for the status, and reports that
-- nothing is left.
abbrev day : List Arrival
day =
    record {
      now = 200;
      from = 4;
      db = record { total = some 70000; sent_num = none };
      request = command_request 1;
    }
    ∷ record {
      now = 210;
      from = 4;
      db = record { total = none; sent_num = none };
      request = rate_request 30 4;
    }
    ∷ record {
      now = 220;
      from = 5;
      db = record { total = none; sent_num = none };
      request = status_request;
    }
    ∷ record {
      now = 230;
      from = 5;
      db = record { total = none; sent_num = some 0 };
      request = done_request;
    }
    ∷ []

handle_pdus_lem_example :
    Ends
      (λ srv'. IsInStep parsed stopped 5 srv' × IsSmall (status_of srv'))
      (handle_pdus printed printed_all day served)
handle_pdus_lem_example =
    handle_pdus_lem printed printed_all parsed printed-ReadsBack stopped 5 day served
      (tt, ((omega arith, omega arith), (tt, (tt, tt)))) served-IsInStep
      (record {
        status = omega arith;
        delay = omega arith;
        multi = omega arith;
        total_num = omega arith;
        online_client_num = omega arith;
      })

served-HasDistinct : HasDistinct served.conns
unfolding HasDistinct
served-HasDistinct = ((refl, tt), (tt, tt))

-- The client has been silent for too long.
server_conn_timer_lem_example :
    (((server_conn_timer 40000 served).conns ≡ examined 40000 served.conns)
      × ((server_conn_timer 40000 served).closed ≡ served.closed ++ expired 40000 served.conns))
    × ((AreHeard 40000 (server_conn_timer 40000 served).conns
          × HasDistinct (server_conn_timer 40000 served).conns)
        × ((server_conn_timer 40000 served).online_client_num
            ≡ clients (server_conn_timer 40000 served).conns % 2 ^ 16))
server_conn_timer_lem_example = server_conn_timer_lem 40000 served served-HasDistinct

silent_gone : expired 40000 served.conns ≡ 5 ∷ []
silent_gone = refl

php_stays : examined 40000 served.conns ≡ php ∷ []
php_stays = refl
