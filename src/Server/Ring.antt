-- ===== src/Server/Ring.antt =====
-- The ring of workers of src/server.c: which client goes to which worker.
use mathlib.Core.Path.{subst}
use native.Mathlib.Nat.{mod-lt, mod-eq_of_lt, mod-mod, mod-add-mod}
use webdis.Client.{http_client_new}
use webdis.State.{HttpClient}
use webdis.Server.{
  Server, server_new, Worker, Event, can_accept, new_client, new_worker, take_client,
  worker_monitor_input, server_can_accept, worker_on_new_client, worker_add_client, on_worker, step,
  run,
}
use webdis.Prelude.{
  ℕ, zero, suc, ◌+◌, ◌%◌, ◌<◌, ◌≡◌, refl, sym, ap, ◌∙◌, inl, inr, none, some, List, [], ◌∷◌, ◌++◌,
  append-nil, append_assoc, arith, ltb, ◌==◌, if◌then◌else◌, Bool-cases, length, get_or,
  length-replicate,
}

-- The clients that are accepted.
unfoldable pub accepted : List Event → List HttpClient
accepted [] = []
accepted (can_accept none ∷ es) = accepted es
accepted (can_accept (some (fd, addr)) ∷ es) =
    let rest = accepted es in if ltb 0 fd then http_client_new fd addr ∷ rest else rest
accepted (new_client i ∷ es) = accepted es

-- Each client in turn, from the worker `i` on.
unfoldable pub in_turn : ℕ → ℕ → List HttpClient → List (ℕ × HttpClient)
in_turn threads i [] = []
in_turn threads i (c ∷ cs) = (i % threads, c) ∷ in_turn threads (i + 1) cs

abbrev pub given : ℕ → ℕ × HttpClient → List HttpClient
given j (i, c) = if i == j then c ∷ [] else []

-- The clients of one worker.
unfoldable pub share : ℕ → List (ℕ × HttpClient) → List HttpClient
share j [] = []
share j (t ∷ ts) = given j t ++ share j ts

abbrev pub worker_at : ℕ → Server → Worker
worker_at j s = get_or s.workers j new_worker

-- What a worker has been given: what it reads from, and what is still in its pipe.
abbrev pub handed : Worker → List HttpClient
handed w = w.monitored ++ w.link

handed-take_client :
    (cs ms : List HttpClient)
    → handed (take_client cs (record { link = cs; monitored = ms })) ≡ ms ++ cs
unfolding worker_monitor_input
handed-take_client [] ms = refl
handed-take_client (c ∷ cs) ms = append_assoc ms (c ∷ []) cs

-- A read of the pipe moves a client, and loses none.
handed-on_new_client : (w : Worker) → handed (worker_on_new_client w) ≡ handed w
unfolding worker_on_new_client
handed-on_new_client w = handed-take_client w.link w.monitored

handed-turn :
    (ws : List Worker) (i j : ℕ)
    → handed (get_or (on_worker i worker_on_new_client ws) j new_worker)
      ≡ handed (get_or ws j new_worker)
handed-turn [] i j = refl
handed-turn (w ∷ ws) zero zero = handed-on_new_client w
handed-turn (w ∷ ws) zero (suc j) = refl
handed-turn (w ∷ ws) (suc i) zero = refl
handed-turn (w ∷ ws) (suc i) (suc j) = handed-turn ws i j

handed-add :
    (ws : List Worker) (i j : ℕ) (c : HttpClient)
    → i < length ws
    → handed (get_or (on_worker i (λ w. worker_add_client w c) ws) j new_worker)
      ≡ handed (get_or ws j new_worker) ++ given j (i, c)
unfolding worker_add_client
handed-add [] i j c v = absurd (omega arith)
handed-add (w ∷ ws) zero zero c v = sym (append_assoc w.monitored w.link (c ∷ []))
handed-add (w ∷ ws) zero (suc j) c v =
    sym (append-nil _) ∙ ap (λ l. handed (get_or ws j new_worker) ++ l) (ground arith)
handed-add (w ∷ ws) (suc i) zero c v = sym (append-nil _) ∙ ap (λ l. handed w ++ l) (ground arith)
handed-add (w ∷ ws) (suc i) (suc j) c v =
    handed-add ws i j c (omega arith)
    ∙ ap (λ l. handed (get_or ws j new_worker) ++ l) (ground arith)

length-on_worker :
    (i : ℕ) (f : Worker → Worker) (ws : List Worker) → length (on_worker i f ws) ≡ length ws
length-on_worker i f [] = refl
length-on_worker zero f (w ∷ ws) = refl
length-on_worker (suc i) f (w ∷ ws) = omega (arith, length-on_worker i f ws)

-- `next_worker` is one of the workers.
pub record IsRing (threads : ℕ) (s : Server) : Type 0 where
  pub count : length s.workers ≡ threads
  pub in_range : s.next_worker < threads

pub server_new-IsRing : (threads : ℕ) → 0 < threads → IsRing threads (server_new threads)
unfolding server_new
server_new-IsRing threads h = record { count = length-replicate threads new_worker; in_range = h }

module _ (threads : ℕ) (h : 0 < threads) where
  in_turn-same :
      (i j : ℕ) (cs : List HttpClient)
      → i % threads ≡ j % threads
      → in_turn threads i cs ≡ in_turn threads j cs
  unfolding in_turn
  in_turn-same i j [] e = refl
  in_turn-same i j (c ∷ cs) e =
      let next : (i + 1) % threads ≡ (j + 1) % threads =
        sym (mod-add-mod i threads 1) ∙ ap (λ k. (k + 1) % threads) e ∙ mod-add-mod j threads 1 in
      rw (e, in_turn-same (i + 1) (j + 1) cs next)

  -- From `s` to `t`, the workers are given the clients `cs` in turn.
  abbrev pub Turns : Server → List HttpClient → Server → Type 0
  Turns s cs t =
      IsRing threads t
      × ((j : ℕ)
          → handed (worker_at j t)
            ≡ handed (worker_at j s) ++ share j (in_turn threads s.next_worker cs))

  -- A client goes to the next worker.
  abbrev admit : Server → HttpClient → Server
  admit s c = record {
    next_worker = (s.next_worker + 1) % threads;
    workers = on_worker s.next_worker (λ w. worker_add_client w c) s.workers;
  }

  admit-IsRing : (s : Server) (c : HttpClient) → IsRing threads s → IsRing threads (admit s c)
  admit-IsRing s c r = record {
    count = length-on_worker s.next_worker _ s.workers ∙ r.count;
    in_range = mod-lt (s.next_worker + 1) h;
  }

  admit-Turns :
      (s : Server) (c : HttpClient) (cs : List HttpClient) (t : Server)
      → IsRing threads s
      → Turns (admit s c) cs t
      → Turns s (c ∷ cs) t
  unfolding in_turn share
  admit-Turns s c cs t r (ring, rest) = (
    ring,
    λ j.
        let n = s.next_worker in
        let first : n % threads ≡ n = mod-eq_of_lt r.in_range in
        let next : in_turn threads ((n + 1) % threads) cs ≡ in_turn threads (n + 1) cs =
          in_turn-same ((n + 1) % threads) (n + 1) cs (mod-mod (n + 1) threads) in
        let added = handed-add s.workers n j c (omega (arith, r.count, r.in_range)) in
        rest j
        ∙ ap (λ l. l ++ share j (in_turn threads ((n + 1) % threads) cs)) added
        ∙ append_assoc (handed (worker_at j s)) (given j (n, c))
            (share j (in_turn threads ((n + 1) % threads) cs))
        ∙ rw (first, next),
  )

  turn-Turns :
      (s : Server) (i : ℕ) (cs : List HttpClient) (t : Server)
      → Turns (step threads s (new_client i)) cs t
      → Turns s cs t
  unfolding step
  turn-Turns s i cs t (ring, rest) = (
    ring,
    λ j.
        rest j
        ∙ ap (λ l. l ++ share j (in_turn threads s.next_worker cs)) (handed-turn s.workers i j),
  )

  pub run-Turns :
      (s : Server) (es : List Event) → IsRing threads s → Turns s (accepted es) (run threads s es)
  unfolding run step accepted server_can_accept in_turn share
  run-Turns s [] r = (r, λ j. sym (append-nil (handed (worker_at j s))))
  run-Turns s (can_accept none ∷ es) r = run-Turns s es r
  run-Turns s (can_accept (some (fd, addr)) ∷ es) r =
      let c = http_client_new fd addr in
      elim (Bool-cases (ltb 0 fd)) [
        | inl e ↦
            let heard : accepted (can_accept (some (fd, addr)) ∷ es) ≡ c ∷ accepted es = rw e in
            let now : server_can_accept threads s (some (fd, addr)) ≡ admit s c = rw e in
            subst
              (λ cs. Turns s cs (run threads (server_can_accept threads s (some (fd, addr))) es))
              (sym heard)
              (subst (λ u. Turns s (c ∷ accepted es) (run threads u es)) (sym now)
                (admit-Turns s c (accepted es) (run threads (admit s c) es) r
                  (run-Turns (admit s c) es (admit-IsRing s c r))))
        | inr e ↦
            let heard : accepted (can_accept (some (fd, addr)) ∷ es) ≡ accepted es = rw e in
            let now : server_can_accept threads s (some (fd, addr)) ≡ s = rw e in
            subst
              (λ cs. Turns s cs (run threads (server_can_accept threads s (some (fd, addr))) es))
              (sym heard)
              (subst (λ u. Turns s (accepted es) (run threads u es)) (sym now) (run-Turns s es r))
      ]
  run-Turns s (new_client i ∷ es) r =
      turn-Turns s i (accepted es) (run threads (step threads s (new_client i)) es) (
        run-Turns (step threads s (new_client i)) es
          (record { count = length-on_worker i _ s.workers ∙ r.count; in_range = r.in_range }))
