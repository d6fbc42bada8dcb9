-- ===== src/Tests/Workers.antt =====
-- Clients on their way to two workers: src/server.c and src/worker.c.
use webdis.Client.{http_client_new}
use webdis.Server.{Event, can_accept, new_client, server_new, run}
use webdis.Server.Handover.{reads, run-share, run-reads}
use webdis.Server.Ring.{accepted, in_turn, share, worker_at, handed}
use webdis.Prelude.{length, ◌++◌, ◌≤◌, List, ◌≡◌, refl, none, some, [], ◌∷◌, arith}

-- A client, a call that fails, a read of the first worker's pipe, and three more clients.
abbrev events : List Event
events =
    can_accept (some (5, 1))
    ∷ can_accept none
    ∷ new_client 0
    ∷ can_accept (some (6, 2))
    ∷ can_accept (some (7, 3))
    ∷ can_accept (some (8, 4))
    ∷ []

-- The first worker reads from the first client, and finds the third in its pipe.
first_worker :
    worker_at 0 (run 2 (server_new 2) events)
    ≡ record { link = http_client_new 7 3 ∷ []; monitored = http_client_new 5 1 ∷ [] }
unfolding run server_new
first_worker = refl

run-share_example :
    handed (worker_at 1 (run 2 (server_new 2) events)) ≡ share 1 (in_turn 2 0 (accepted events))
run-share_example = run-share 2 events 1 (omega arith)

second_share :
    share 1 (in_turn 2 0 (accepted events)) ≡ http_client_new 6 2 ∷ http_client_new 8 4 ∷ []
unfolding share in_turn accepted
second_share = refl

two_clients : length (worker_at 1 (run 2 (server_new 2) events)).link ≤ 2
unfolding run server_new
two_clients = omega arith

run-reads_example :
    (worker_at 1 (run 2 (server_new 2) (events ++ reads 2 1))).monitored
    ≡ share 1 (in_turn 2 0 (accepted events))
run-reads_example = run-reads 2 events 2 1 (omega arith) two_clients
