-- ===== src/Server.antt =====
-- src/server.c and src/worker.c: the clients that are accepted, and the pipes by which the worker
-- threads get them. An event of the server or of a worker is one step, in any order.
pub mod Ring
pub mod Handover
use webdis.Client.{http_client_new}
use webdis.State.{HttpClient}
use webdis.Prelude.{
  ℕ, zero, suc, ◌+◌, ◌-◌, ◌*◌, ◌/◌, ◌%◌, ◌^◌, ◌≤◌, ◌<◌, min, ◌≡◌, refl, sym, ap, ◌∙◌, ◌≢◌, ◌↔◌, ◌⊎◌,
  inl, inr, Bool, true, false, not, ◌&&◌, ◌||◌, Option, none, some, List, [], ◌∷◌, ◌++◌, map,
  append-nil, append_assoc, arith, ltb, leb, ◌==◌, ◌>>=◌, if◌then◌else◌, ==_iff, ltb→lt, lt→ltb,
  leb→le, Bool-cases, Option-cases, length, get_elem?, set, length-append, length-set,
  get_elem?-set_self, get_elem?-set_ne, get_or, take, drop, take-append, drop-append, replicate,
  take-append-drop, length-take, length-drop, length-replicate, length-map, All, Any,
}

-- What the server shares with a worker: the clients whose addresses are in the pipe `link`, the
-- oldest first, and those that the worker has begun to read from.
pub record Worker : Type 0 where
  pub link : List HttpClient
  pub monitored : List HttpClient

pub record Server : Type 0 where
  pub next_worker : ℕ
  pub workers : List Worker

-- `worker_new`: a pipe with nothing in it.
abbrev pub new_worker : Worker
new_worker = record { link = []; monitored = [] }

unfoldable pub server_new : ℕ → Server
server_new http_threads = record { next_worker = 0; workers = replicate http_threads new_worker }

-- The address is written whole: it is far below the size of a pipe's atomic writes.
unfoldable pub worker_add_client : Worker → HttpClient → Worker
worker_add_client w c = record w { link = w.link ++ (c ∷ []) }

unfoldable pub worker_monitor_input : Worker → HttpClient → Worker
worker_monitor_input w c = record w { monitored = w.monitored ++ (c ∷ []) }

-- With nothing in the pipe, `ret` is not the size of an address.
abbrev pub take_client : List HttpClient → Worker → Worker
take_client [] w = w
take_client (c ∷ cs) w = worker_monitor_input (record w { link = cs }) c

unfoldable pub worker_on_new_client : Worker → Worker
unfolding worker_monitor_input
worker_on_new_client w = take_client w.link w

abbrev pub on_worker : ℕ → (Worker → Worker) → List Worker → List Worker
on_worker i f [] = []
on_worker zero f (w ∷ ws) = f w ∷ ws
on_worker (suc i) f (w ∷ ws) = w ∷ on_worker i f ws

-- `accept` answers a descriptor and an address, or nothing for an error. The worker is chosen
-- before the call.
unfoldable pub server_can_accept : ℕ → Server → Option (ℕ × ℕ) → Server
unfolding http_client_new worker_add_client
server_can_accept http_threads s none = s
server_can_accept http_threads s (some (client_fd, addr)) =
    if ltb 0 client_fd
    then record {
      next_worker = (s.next_worker + 1) % http_threads;
      workers =
          on_worker s.next_worker (λ w. worker_add_client w (http_client_new client_fd addr))
            s.workers;
    }
    else s

-- The events of the server's thread and of its workers.
pub data Event : Type 0 where
  can_accept : Option (ℕ × ℕ) → Event
  new_client : ℕ → Event

unfoldable pub step : ℕ → Server → Event → Server
unfolding server_can_accept worker_on_new_client
step http_threads s (can_accept a) = server_can_accept http_threads s a
step http_threads s (new_client i) = record s {
  workers = on_worker i worker_on_new_client s.workers;
}

unfoldable pub run : ℕ → Server → List Event → Server
unfolding step
run http_threads s [] = s
run http_threads s (e ∷ es) = run http_threads (step http_threads s e) es
