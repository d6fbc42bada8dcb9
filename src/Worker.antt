-- ===== src/Worker.antt =====
-- src/worker.c: which answer a request gets.
pub mod Answers
pub mod Reading
pub mod Upkeep
pub mod Early
pub mod Delivered
pub mod Requests
use webdis.Client.{is_text}
use webdis.Cmd.{World, Response, cmd_sent, cmd_param_error, cmd_acl_fail, cmd_redis_unavail}
use webdis.Cmd.Run.{cmd_run}
use webdis.Http.{Sending}
use webdis.Http.Send.{http_crossdomain, http_send_error, http_send_options}
use webdis.Pool.{PoolConf, Connecting}
use webdis.Prelude.Text.{Bytes, codes, strncmp_eq}
use webdis.State.{Conf, HttpClient}
use webdis.Prelude.{
  ℕ, zero, suc, ◌+◌, ◌-◌, ◌*◌, ◌/◌, ◌%◌, ◌^◌, ◌≤◌, ◌<◌, min, ◌≡◌, refl, sym, ap, ◌∙◌, ◌≢◌, ◌↔◌, ◌⊎◌,
  inl, inr, Bool, true, false, not, ◌&&◌, ◌||◌, Option, none, some, List, [], ◌∷◌, ◌++◌, map,
  append-nil, append_assoc, arith, ltb, leb, ◌==◌, ◌>>=◌, if◌then◌else◌, ==_iff, ltb→lt, lt→ltb,
  leb→le, Bool-cases, Option-cases, length, get_elem?, set, length-append, length-set,
  get_elem?-set_self, get_elem?-set_ne, get_or, take, drop, take-append, drop-append, replicate,
  take-append-drop, length-take, length-drop, length-replicate, length-map, All, Any,
}

pub data Method : Type 0 where
  http_get http_post http_put http_options http_other : Method

abbrev pub on_client : World → HttpClient × List Sending → World × List Sending
on_client w (client, sends) = (record w { client = client }, sends)

abbrev pub is_crossdomain : HttpClient → Bool
is_crossdomain c = is_text c.path (codes "/crossdomain.xml")

-- What is done with the answer of `cmd_run`.
unfoldable pub settle : Response × World → World × List Sending
unfolding http_send_error
settle (cmd_sent, w) = (w, [])
settle (cmd_param_error, w) = on_client w (http_send_error w.client 403 (codes "Forbidden"))
settle (cmd_acl_fail, w) = on_client w (http_send_error w.client 403 (codes "Forbidden"))
settle (cmd_redis_unavail, w) =
    on_client w (http_send_error w.client 503 (codes "Service Unavailable"))

-- The path of a request is not empty.
unfoldable pub worker_process_client :
    Conf → PoolConf → Connecting → Method → World → World × List Sending
unfolding cmd_run settle http_crossdomain http_send_options strncmp_eq
worker_process_client cfg pcfg answer http_get w =
    if is_crossdomain w.client
    then on_client w (http_crossdomain w.client)
    else settle (cmd_run cfg pcfg answer w (drop 1 w.client.path) [])
worker_process_client cfg pcfg answer http_post w =
    settle (cmd_run cfg pcfg answer w w.client.body [])
worker_process_client cfg pcfg answer http_put w =
    settle (cmd_run cfg pcfg answer w (drop 1 w.client.path) w.client.body)
worker_process_client cfg pcfg answer http_options w = on_client w (http_send_options w.client)
worker_process_client cfg pcfg answer http_other w =
    on_client w (http_send_error w.client 405 (codes "Method Not Allowed"))
