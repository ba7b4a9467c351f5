-- ===== src/Server/Tests.antt =====
-- Rounds of the servers, and the theorems at concrete inputs.
use operating_sys.Base.{
  ℕ, zero, suc, ◌≡◌, refl, true, false, not, some, List, [], ◌∷◌, ◌++◌, arith, ◌==◌, if◌then◌else◌,
  replicate,
}
use operating_sys.Base.Outcome.{done, fault}
use operating_sys.Base.Memory.{store_bytes, c_string}
use operating_sys.Server.{
  Clients, Event, connected, message, disconnected, closed, Recv, bytes, handle_connection,
  handle_client, serve, round,
}
use operating_sys.Server.Table.{handle_connection_first}
use operating_sys.Server.Round.{IsShort, remaining, serve-remaining, handle_client_branches}
use operating_sys.Base.{replicate, List, some, true, false, ◌==◌}
use operating_sys.Server.{Answers, bytes, max_clients_count}
use operating_sys.Server.Round.{remaining}
use operating_sys.Server.Run
use operating_sys.Server.Run.{table_of, tables_after, main-tables_after}
use operating_sys.Base.Texts.{codes}
use operating_sys.Base.Digits.{decimal}
use operating_sys.Server.Clients.{Start, all_sent, send_loop, stream_client, main_serves-all_sent}
use operating_sys.Server.Datagram.{interrupt, leave, main, messages, main_unlinks}

abbrev table : Clients
table = 5 ∷ 0 ∷ 7 ∷ 0 ∷ []

handle_connection_first_example :
    handle_connection (some 9) table ≡ done (5 ∷ 9 ∷ 7 ∷ 0 ∷ [], connected 1 9 ∷ [])
handle_connection_first_example = handle_connection_first 9 (5 ∷ []) (7 ∷ 0 ∷ []) (omega arith)

-- Client 5 comes, and hangs up in the next round.
abbrev two_rounds : List Answers
two_rounds =
    record {
      selected = true;
      master_ready = true;
      accepted = some 5;
      ready = λ sd. false;
      recv = λ i. bytes [];
    }
    ∷ record {
      selected = true;
      master_ready = false;
      accepted = some 6;
      ready = λ sd. sd == 5;
      recv = λ i. bytes [];
    }
    ∷ []

main-tables_after_example :
    table_of (Run.main true true true two_rounds)
    ≡ tables_after two_rounds (replicate max_clients_count 0)
main-tables_after_example = main-tables_after two_rounds (
  record { selected = refl; sd = 5; accepted = refl; short = λ i. omega arith },
  (record { selected = refl; sd = 6; accepted = refl; short = λ i. omega arith }, tt),
)

empty_again : tables_after two_rounds (replicate 10 0) ≡ done (replicate 10 0)
unfolding tables_after remaining
empty_again = refl

-- client 5 sends a byte, client 7 hangs up
abbrev answers : ℕ → Recv
answers i = if i == 0 then bytes (b'x' ∷ []) else bytes []

answers-IsShort : (i : ℕ) → IsShort (answers i)
answers-IsShort zero = omega arith
answers-IsShort (suc i) = ground arith

serve-remaining_example :
    (es : List Event) × (serve (λ _. true) answers 4 0 table
      ≡ done (remaining (λ _. true) answers 0 table, es))
serve-remaining_example = serve-remaining (λ _. true) answers answers-IsShort table

handle_client_branches_example :
    handle_client (replicate 256 7) (bytes (replicate 256 b'x')) 0 table ≡ fault
handle_client_branches_example =
    handle_client_branches (replicate 256 7) (bytes (replicate 256 b'x')) 0 table refl

greets :
    handle_client (replicate 256 7) (bytes (b'h' ∷ b'i' ∷ 0 ∷ b'x' ∷ [])) 2 table
    ≡ done (table, message 2 7 (b'h' ∷ b'i' ∷ []) ∷ [])
unfolding handle_client store_bytes c_string
greets = refl

round_runs :
    round
      (record {
        selected = true;
        master_ready = true;
        accepted = some 9;
        ready = λ sd. not (sd == 9);
        recv = answers;
      })
      table
    ≡ done (
      5 ∷ 9 ∷ 0 ∷ 0 ∷ [],
      connected 1 9 ∷ message 0 5 (b'x' ∷ []) ∷ disconnected 2 7 ∷ closed 7 ∷ [],
    )
unfolding round handle_client store_bytes c_string
round_runs = refl

-- Of three clients the second cannot send.
abbrev starts : List Start
starts =
    record { socket_made = true; sent = true; pid = 41 }
    ∷ record { socket_made = true; sent = false; pid = 42 }
    ∷ record { socket_made = true; sent = true; pid = 43 }
    ∷ []

two_sent : all_sent starts ≡ codes "pid 41" ∷ codes "pid 43" ∷ []
unfolding decimal
two_sent = refl

stream_client_stops :
    stream_client true true 7 (true ∷ false ∷ true ∷ [])
    ≡ record { status = some 1; sent = codes "pid 7" ∷ [] }
unfolding decimal send_loop
stream_client_stops = refl

main_serves-all_sent_example :
    main false true true true (messages (all_sent starts) ++ interrupt ∷ [])
    ≡ leave 0 (all_sent starts)
main_serves-all_sent_example = main_serves-all_sent starts

main_unlinks_example : (main true true false true (interrupt ∷ [])).name_exists ≡ false
main_unlinks_example = main_unlinks true (interrupt ∷ [])
