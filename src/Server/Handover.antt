-- ===== src/Server/Handover.antt =====
-- The pipes between the server's thread and its workers (src/server.c, src/worker.c): from the
-- accept of a client to the first wait for its bytes.
use mathlib.Core.Path.{subst}
use webdis.Client.{http_client_new}
use webdis.State.{HttpClient}
use webdis.Server.{
  Server, Worker, Event, can_accept, new_client, new_worker, server_new, take_client,
  worker_monitor_input, worker_on_new_client, on_worker, step, run,
}
use webdis.Server.Ring.{accepted, in_turn, share, worker_at, handed, server_new-IsRing, run-Turns}
use webdis.Prelude.{
  ℕ, zero, suc, ◌≤◌, ◌<◌, ◌≡◌, refl, sym, ap, ◌∙◌, none, some, List, [], ◌∷◌, ◌++◌, append-nil,
  arith, ltb, if◌then◌else◌, length, get_or, drop, replicate,
}

handed-replicate : (n j : ℕ) → handed (get_or (replicate n new_worker) j new_worker) ≡ []
handed-replicate zero j = refl
handed-replicate (suc n) zero = refl
handed-replicate (suc n) (suc j) = handed-replicate n j

-- With at least one worker, from the start of the server on, and in whatever order its thread
-- accepts clients and the workers read their pipes: the clients that a worker reads from, and then
-- those in its pipe, are the accepted ones whose turn was the worker's, in their order. No client
-- is lost, none is given twice, and none overtakes another.
pub run-share :
    (threads : ℕ) (es : List Event) (j : ℕ)
    → 0 < threads
    → handed (worker_at j (run threads (server_new threads) es))
      ≡ share j (in_turn threads 0 (accepted es))
unfolding server_new
run-share threads es j h =
    (run-Turns threads h (server_new threads) es (server_new-IsRing threads h)).1 j
    ∙ ap (λ l. l ++ share j (in_turn threads 0 (accepted es))) (handed-replicate threads j)

-- A number of reads of the pipe of the worker `j`.
abbrev pub reads : ℕ → ℕ → List Event
reads n j = replicate n (new_client j)

link-take_client :
    (cs ms : List HttpClient)
    → (take_client cs (record { link = cs; monitored = ms })).link ≡ drop 1 cs
unfolding worker_monitor_input
link-take_client [] ms = refl
link-take_client (c ∷ cs) ms = refl

link-turn :
    (ws : List Worker) (j : ℕ)
    → (get_or (on_worker j worker_on_new_client ws) j new_worker).link
      ≡ drop 1 (get_or ws j new_worker).link
unfolding worker_on_new_client
link-turn [] j = refl
link-turn (w ∷ ws) zero = link-take_client w.link w.monitored
link-turn (w ∷ ws) (suc j) = link-turn ws j

none_left : (cs : List HttpClient) → length cs ≤ 0 → cs ≡ []
none_left [] fits = refl
none_left (c ∷ cs) fits = absurd (omega arith)

fewer : (cs : List HttpClient) (n : ℕ) → length cs ≤ suc n → length (drop 1 cs) ≤ n
fewer [] n fits = omega arith
fewer (c ∷ cs) n fits = omega arith

link-reads :
    (threads n j : ℕ) (s : Server)
    → length (worker_at j s).link ≤ n
    → (worker_at j (run threads s (reads n j))).link ≡ []
unfolding run step
link-reads threads zero j s fits = none_left (worker_at j s).link fits
link-reads threads (suc n) j s fits =
    link-reads threads n j (step threads s (new_client j))
      (subst (λ l. length l ≤ n) (sym (link-turn s.workers j)) (fewer (worker_at j s).link n fits))

run-append :
    (threads : ℕ) (s : Server) (es fs : List Event)
    → run threads s (es ++ fs) ≡ run threads (run threads s es) fs
unfolding run
run-append threads s [] fs = refl
run-append threads s (e ∷ es) fs = run-append threads (step threads s e) es fs

accepted-reads : (es : List Event) (n j : ℕ) → accepted (es ++ reads n j) ≡ accepted es
unfolding accepted
accepted-reads [] zero j = refl
accepted-reads [] (suc n) j = accepted-reads [] n j
accepted-reads (can_accept none ∷ es) n j = accepted-reads es n j
accepted-reads (can_accept (some (fd, addr)) ∷ es) n j =
    ap (λ l. if ltb 0 fd then http_client_new fd addr ∷ l else l) (accepted-reads es n j)
accepted-reads (new_client i ∷ es) n j = accepted-reads es n j

-- With at least one worker: once a worker has read its pipe as often as there are clients in it, it
-- reads from every client whose turn was its own, in their order.
pub run-reads :
    (threads : ℕ) (es : List Event) (n j : ℕ)
    → 0 < threads
    → length (worker_at j (run threads (server_new threads) es)).link ≤ n
    → (worker_at j (run threads (server_new threads) (es ++ reads n j))).monitored
      ≡ share j (in_turn threads 0 (accepted es))
run-reads threads es n j h fits =
    let t = run threads (server_new threads) (es ++ reads n j) in
    let empty : (worker_at j t).link ≡ [] =
      ap (λ u. (worker_at j u).link) (run-append threads (server_new threads) es (reads n j))
      ∙ link-reads threads n j (run threads (server_new threads) es) fits in
    sym (append-nil (worker_at j t).monitored)
    ∙ ap (λ l. (worker_at j t).monitored ++ l) (sym empty)
    ∙ run-share threads (es ++ reads n j) j h
    ∙ ap (λ cs. share j (in_turn threads 0 cs)) (accepted-reads es n j)
