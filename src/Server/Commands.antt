-- ===== src/Server/Commands.antt =====
-- Whatever packets the server handles, the workers that obey what they are sent stay set as it is.
use postfix_edm.Prelude.{
  ℕ, ◌<◌, ◌^◌, arith, ◌≡◌, List, [], ◌∷◌, Option, none, some, true, false, ◌==◌,
}
use postfix_edm.Prelude.Memory.{◌>>=◌}
use postfix_edm.Net.Balance.{Ends, ends}
use postfix_edm.Net.Rounds.{then-Ends}
use postfix_edm.Server.{ClientStatus, ServerStatus, client_php, Server, Answers}
use postfix_edm.Server.Handling.{
  receive, Request, heartbeat_request, data_request, command_request, rate_request, reg_request,
  status_request, all_status_request, done_request, other_request, handle_heart_beat, status_of,
  handle_pdu, reply,
}
use postfix_edm.Server.Small.{
  IsSmall, IsSmall-command, IsSmall-heartbeat, IsSmall-client_done, IsSmall-rate, IsSmall-on_conn,
  IsSmall-receive,
}
use postfix_edm.Server.Agreement.{IsInStep}
use postfix_edm.Client.{Worker}
use postfix_edm.Server.Steps.{
  receive_lem, answered, command_lem, all_status_lem, client_done_lem, rate_lem, reg_lem,
  status_lem, heartbeat_lem,
}

-- A packet that is handled: when, for the connection with which handle, and what the database answers.
pub record Arrival : Type 0 where
  pub now : ℕ
  pub from : ℕ
  pub db : Answers
  pub request : Request

-- A heartbeat carries JSON that can be read, the connection does not register as a PHP client, and the fields
-- of a rate fit 16 bits.
abbrev pub IsFairRequest : ℕ → ℕ → Request → Type 0
IsFairRequest handle from (heartbeat_request none) = ⊥
IsFairRequest handle from (reg_request t) = (from == handle) ≡ true → (t == client_php) ≡ false
IsFairRequest handle from (rate_request delay multi) = (delay < 2 ^ 16) × (multi < 2 ^ 16)
IsFairRequest handle from _ = Unit

abbrev pub AreFair : ℕ → List Arrival → Type 0
AreFair handle [] = Unit
AreFair handle (a ∷ rest) = IsFairRequest handle a.from a.request × AreFair handle rest

-- The JSON that is read has the status, the delay and the number of processes that were printed.
pub record ReadsBack (print_status : ServerStatus → List ℕ)
    (parse_status : List ℕ → Option ServerStatus) (s : ServerStatus) : Type 0 where
  pub read : ServerStatus
  pub reads : parse_status (print_status s) ≡ some read
  pub status : read.status ≡ s.status
  pub delay : read.delay ≡ s.delay
  pub multi : read.multi ≡ s.multi

module _ (print_status : ServerStatus → List ℕ) (print_all : List ClientStatus → List ℕ) where
  -- The packets that the server handles, in the order of their arrival.
  unfoldable pub handle_pdus : List Arrival → Server → Option Server
  handle_pdus [] srv = some srv
  handle_pdus (a ∷ rest) srv = do
    srv' ← handle_pdu print_status print_all a.now a.from a.db a.request (receive a.now a.from srv)
    handle_pdus rest srv'

module _ (print_status : ServerStatus → List ℕ) (print_all : List ClientStatus → List ℕ)
    (parse_status : List ℕ → Option ServerStatus)
    (reads_back : (s : ServerStatus) → IsSmall s → ReadsBack print_status parse_status s)
    (w : Worker) (handle : ℕ) where
  -- The worker of the connection is in step, and the numbers of the server fit 16 bits.
  abbrev Good : Server → Type 0
  Good srv = IsInStep parse_status w handle srv × IsSmall (status_of srv)

  handle_pdu_lem :
      (now from : ℕ) (db : Answers) (r : Request) (srv : Server)
      → IsFairRequest handle from r
      → Good srv
      → Ends Good (handle_pdu print_status print_all now from db r srv)
  unfolding handle_pdu handle_heart_beat reply
  handle_pdu_lem now from db (heartbeat_request none) srv fair (step, small) = absurd fair
  handle_pdu_lem now from db (heartbeat_request (some s)) srv fair (step, small) =
      ends _ (heartbeat_lem parse_status w handle s srv step, IsSmall-heartbeat s srv small)
  handle_pdu_lem now from db (data_request text) srv fair (step, small) =
      ends _
        (answered parse_status w handle now from 0 _ srv step, IsSmall-on_conn from _ srv small)
  handle_pdu_lem now from db (command_request c) srv fair (step, small) = ends _ (
    command_lem parse_status w handle now from db c srv step,
    IsSmall-command now from c db srv small,
  )
  handle_pdu_lem now from db (rate_request delay multi) srv fair (step, small) = ends _ (
    answered parse_status w handle now from 0 _ _
        (rate_lem parse_status w handle now delay multi srv step),
    IsSmall-rate now from delay multi srv fair.0 fair.1 small,
  )
  handle_pdu_lem now from db (reg_request t) srv fair (step, small) =
      ends _ (reg_lem parse_status w handle from t srv fair step, IsSmall-on_conn from _ srv small)
  handle_pdu_lem now from db status_request srv fair (step, small) =
      let back : ReadsBack print_status parse_status (status_of srv) =
        reads_back (status_of srv) small in
      ends _ (
        status_lem parse_status w handle now from (print_status (status_of srv)) srv back.read
            back.reads (omega (arith, back.status, small.status))
            (omega (arith, back.delay, small.delay)) (omega (arith, back.multi, small.multi)) step,
        IsSmall-on_conn from _ srv small,
      )
  handle_pdu_lem now from db all_status_request srv fair (step, small) = ends _ (
    all_status_lem parse_status w handle now from (print_all srv.client_statuses) srv step,
    IsSmall-on_conn from _ srv small,
  )
  handle_pdu_lem now from db done_request srv fair (step, small) =
      ends _ (
        client_done_lem parse_status w handle now db srv step,
        IsSmall-client_done now db srv small,
      )
  handle_pdu_lem now from db other_request srv fair (step, small) = ends _ (step, small)

  -- Let the JSON of a status whose numbers fit 16 bits be read as it was printed, let the numbers of the
  -- server fit 16 bits, and let a worker, obeying what was sent to its connection, have the status, the delay
  -- and the number of processes of the server. Whatever packets the server then handles, for whichever
  -- connections and in whatever order, where the JSON of each heartbeat can be read, the worker's
  -- connection does not register as a PHP client, and the delays and numbers of processes fit 16 bits: it
  -- handles them all, and what it sent to the connection again gives the worker the status, the delay and the
  -- number of processes of the server, whose numbers still fit 16 bits.
  pub handle_pdus_lem :
      (arrivals : List Arrival) (srv : Server)
      → AreFair handle arrivals
      → IsInStep parse_status w handle srv
      → IsSmall (status_of srv)
      → Ends
          (λ srv'. IsInStep parse_status w handle srv' × IsSmall (status_of srv'))
          (handle_pdus print_status print_all arrivals srv)
  unfolding handle_pdus
  handle_pdus_lem [] srv fair step small = ends srv (step, small)
  handle_pdus_lem (a ∷ rest) srv (fair, later) step small =
      then-Ends
        (handle_pdu_lem a.now a.from a.db a.request (receive a.now a.from srv) fair (
          receive_lem parse_status w handle a.now a.from srv step,
          IsSmall-receive a.now a.from srv small,
        ))
        (λ srv' good. handle_pdus_lem rest srv' later good.0 good.1)
