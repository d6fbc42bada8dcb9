-- ===== src/Worker/Answers.antt =====
-- src/worker.c: each request against the answers it gets, with src/cmd.c and src/http.c below it.
use mathlib.Core.Path.{subst}
use webdis.Cmd.{World, Sent, Response, cmd_sent, cmd_param_error, cmd_acl_fail, cmd_redis_unavail}
use webdis.Cmd.Answered.{Answered, cmd_run-Answered}
use webdis.Cmd.Run.{cmd_run}
use webdis.Cmd.Verdict.{
  Verdict, no_command, forbidden, unavailable, accepted, announced, verdict, cmd_run-verdict,
}
use webdis.Formats.Promise.{connection-is_value}
use webdis.Http.{
  HttpResponse, Sending, header, http_response_set_body, http_response_write, format_response,
  find_dupe, http_response_set_header,
}
use webdis.Http.Length.{IsPlain, message_of}
use webdis.Http.Reader.{Message, lookup_field, read_message}
use webdis.Http.Send.{
  client_response, send_and_reset, cross_domain_policy, http_crossdomain, http_send_error,
  http_send_options,
}
use webdis.Http.Written.{read_message-format_response}
use webdis.Pool.{PoolConf, Connecting}
use webdis.Prelude.Search.{lacks}
use webdis.Prelude.Text.{Bytes, codes, strncmp_eq, strcasecmp_eq, strcmp_eq}
use webdis.State.{Conf, HttpClient}
use webdis.Worker.{
  Method, http_get, http_post, http_put, http_options, http_other, on_client, is_crossdomain,
  settle, worker_process_client,
}
use webdis.Prelude.{
  ℕ, ◌≤◌, ◌<◌, ◌≡◌, refl, ap, ◌∙◌, inl, inr, true, Option, none, some, List, [], ◌∷◌, ◌++◌, arith,
  if◌then◌else◌, Bool-cases, drop,
}

-- The code that a request is refused with.
abbrev pub refusal : Response → Option ℕ
refusal cmd_sent = none
refusal cmd_param_error = some 403
refusal cmd_acl_fail = some 403
refusal cmd_redis_unavail = some 503

-- The code for a request that has come to this, if it is answered at once.
abbrev pub code_for : Verdict → Option ℕ
code_for no_command = some 403
code_for forbidden = some 403
code_for unavailable = some 503
code_for accepted = none

-- The code of the answer that comes at once, if one does: by the method, the URI, the access rules
-- and the connection.
unfoldable pub expected : Conf → PoolConf → Connecting → Method → World → Option ℕ
unfolding strncmp_eq
expected cfg pcfg answer http_get w =
    if is_crossdomain w.client
    then some 200
    else code_for (verdict cfg pcfg answer w (drop 1 w.client.path) [])
expected cfg pcfg answer http_post w = code_for (verdict cfg pcfg answer w w.client.body [])
expected cfg pcfg answer http_put w =
    code_for (verdict cfg pcfg answer w (drop 1 w.client.path) w.client.body)
expected cfg pcfg answer http_options w = some 200
expected cfg pcfg answer http_other w = some 405

-- A response to the client with this code, in front of whatever is sent behind it.
abbrev pub IsResponse : ℕ → ℕ → Bytes → Sending → Type 0
IsResponse fd code s x =
    (x.fd ≡ fd)
    × ((m : Message) × (read_message (x.response.out ++ s) ≡ some (m, s)) × (m.status ≡ code))

-- One response and no command, or one command and no response.
abbrev pub IsExpected : Option ℕ → World → Bytes → World × List Sending → Type 0
IsExpected none w s (w', sends) = (sends ≡ []) × ((c : Sent) × (w'.sent ≡ w.sent ++ (c ∷ [])))
IsExpected (some code) w s (w', sends) =
    (w'.sent ≡ w.sent) × ((x : Sending) × (sends ≡ x ∷ []) × IsResponse w.client.fd code s x)

module _ (c : HttpClient) where
  client_response-IsPlain :
      (code : ℕ) (msg : Bytes)
      → 100 ≤ code
      → code < 1000
      → lacks 13 msg ≡ true
      → IsPlain (client_response c code msg)
  unfolding client_response find_dupe lookup_field strncmp_eq strcasecmp_eq strcmp_eq
  client_response-IsPlain code msg ge lt line = record {
    code_ge = ge;
    code_lt = lt;
    one_line = line;
    fields = rw (connection-is_value c.keep_alive);
    whole = refl;
    no_length = refl;
    no_length_field = refl;
    announced = inr refl;
    size = omega arith;
  }

  typed : Bytes → Option Bytes → HttpResponse
  unfolding client_response http_response_set_body http_response_set_header
  typed mime body =
      http_response_set_body
        (header (codes "Content-Type") mime (client_response c 200 (codes "OK"))) body

  crossdomain-IsPlain : IsPlain (typed (codes "application/xml") (some cross_domain_policy))
  unfolding typed find_dupe lookup_field strncmp_eq strcasecmp_eq strcmp_eq
  crossdomain-IsPlain = record {
    code_ge = omega arith;
    code_lt = omega arith;
    one_line = refl;
    fields = rw (connection-is_value c.keep_alive);
    whole = refl;
    no_length = refl;
    no_length_field = refl;
    announced = inl refl;
    size = omega arith;
  }

  options-IsPlain : IsPlain (typed (codes "text/html") none)
  unfolding typed find_dupe lookup_field strncmp_eq strcasecmp_eq strcmp_eq
  options-IsPlain = record {
    code_ge = omega arith;
    code_lt = omega arith;
    one_line = refl;
    fields = rw (connection-is_value c.keep_alive);
    whole = refl;
    no_length = refl;
    no_length_field = refl;
    announced = inl refl;
    size = omega arith;
  }

  -- The length that `http_send_options` sets itself is the one that would be added.
  options-same :
      (format_response
        (header (codes "Content-Length") (codes "0") (typed (codes "text/html") none))).out
      ≡ (format_response (typed (codes "text/html") none)).out
  unfolding typed format_response strncmp_eq strcmp_eq
  options-same = refl

-- The answers that need no command.
module _ (w : World) (s : Bytes) where
  IsExpected-plain :
      (code : ℕ) (r : HttpResponse)
      → r.code ≡ code
      → IsPlain r
      → IsExpected (some code) w s (on_client w (send_and_reset w.client r))
  unfolding send_and_reset http_response_write
  IsExpected-plain code r e p = (
    refl,
    (
      record { fd = w.client.fd; response = format_response r },
      refl,
      (refl, (message_of r, read_message-format_response r s p, e)),
    ),
  )

  send_error-IsExpected :
      (code : ℕ) (msg : Bytes)
      → 100 ≤ code
      → code < 1000
      → lacks 13 msg ≡ true
      → IsExpected (some code) w s (on_client w (http_send_error w.client code msg))
  unfolding http_send_error client_response http_response_set_body
  send_error-IsExpected code msg ge lt line =
      IsExpected-plain code (client_response w.client code msg) refl
        (client_response-IsPlain w.client code msg ge lt line)

  crossdomain-IsExpected : IsExpected (some 200) w s (on_client w (http_crossdomain w.client))
  unfolding http_crossdomain typed client_response http_response_set_body
  crossdomain-IsExpected =
      IsExpected-plain 200 (typed w.client (codes "application/xml") (some cross_domain_policy))
        refl (crossdomain-IsPlain w.client)

  options-IsExpected : IsExpected (some 200) w s (on_client w (http_send_options w.client))
  unfolding http_send_options send_and_reset http_response_write typed client_response
      http_response_set_body
  options-IsExpected =
      let r = typed w.client (codes "text/html") none in
      let sent = header (codes "Content-Length") (codes "0") r in
      let read =
        ap (λ o. read_message (o ++ s)) (options-same w.client)
        ∙ read_message-format_response r s (options-IsPlain w.client) in
      (
        refl,
        (
          record { fd = w.client.fd; response = format_response sent },
          refl,
          (refl, (message_of r, read, refl)),
        ),
      )

-- With the client as `cmd_run` leaves it.
IsExpected-later :
    (code : ℕ) (w w' : World) (s : Bytes) (r : World × List Sending)
    → w'.sent ≡ w.sent
    → w'.client.fd ≡ w.client.fd
    → IsExpected (some code) w' s r
    → IsExpected (some code) w s r
IsExpected-later code w w' s r e e' (same, (x, one, (fd, read))) =
    (same ∙ e, (x, one, (fd ∙ e', read)))

pub settle-IsExpected :
    (w : World) (s : Bytes) (r : Response × World)
    → Answered w r
    → IsExpected (refusal r.0) w s (settle r)
unfolding settle
settle-IsExpected w s (cmd_sent, w') (one, fd) = (refl, one)
settle-IsExpected w s (cmd_param_error, w') (same, fd) =
    IsExpected-later 403 w w' s (on_client w' (http_send_error w'.client 403 (codes "Forbidden")))
      same fd (send_error-IsExpected w' s 403 (codes "Forbidden") (omega arith) (omega arith) refl)
settle-IsExpected w s (cmd_acl_fail, w') (same, fd) =
    IsExpected-later 403 w w' s (on_client w' (http_send_error w'.client 403 (codes "Forbidden")))
      same fd (send_error-IsExpected w' s 403 (codes "Forbidden") (omega arith) (omega arith) refl)
settle-IsExpected w s (cmd_redis_unavail, w') (same, fd) =
    IsExpected-later 503 w w' s
      (on_client w' (http_send_error w'.client 503 (codes "Service Unavailable"))) same fd
      (send_error-IsExpected w' s 503 (codes "Service Unavailable") (omega arith) (omega arith)
        refl)

module _ (cfg : Conf) (pcfg : PoolConf) (answer : Connecting) where
  refusal-announced : (v : Verdict) → refusal (announced cfg pcfg answer v) ≡ code_for v
  refusal-announced no_command = refl
  refusal-announced forbidden = refl
  refusal-announced unavailable = refl
  refusal-announced accepted = refl

  run-IsExpected :
      (w : World) (uri body s : Bytes)
      → IsExpected
          (code_for (verdict cfg pcfg answer w uri body))
          w
          s
          (settle (cmd_run cfg pcfg answer w uri body))
  run-IsExpected w uri body s =
      subst (λ o. IsExpected o w s (settle (cmd_run cfg pcfg answer w uri body)))
        (ap refusal (cmd_run-verdict cfg pcfg answer w uri body)
          ∙ refusal-announced (verdict cfg pcfg answer w uri body))
        (settle-IsExpected w s (cmd_run cfg pcfg answer w uri body)
          (cmd_run-Answered cfg pcfg answer w uri body))

  -- Every request is answered in one of two ways: exactly one command is sent to Redis and no response
  -- to the client, or no command and exactly one response, to the client's descriptor, which is read
  -- as one message with the expected code: 200 for OPTIONS and for a GET of the cross-domain policy,
  -- 405 for a method but GET, POST, PUT and OPTIONS, 403 for a URI without a command, 403 for a
  -- command that the access rules refuse, 503 for one that they allow when there is no connection
  -- (a new one for a subscription or another database than that of the configuration, one of the
  -- pool for the rest), and none for one that has its connection.
  pub worker_process_client-IsExpected :
      (method : Method) (w : World) (s : Bytes)
      → IsExpected
          (expected cfg pcfg answer method w)
          w
          s
          (worker_process_client cfg pcfg answer method w)
  unfolding worker_process_client expected
  worker_process_client-IsExpected http_get w s = elim (Bool-cases (is_crossdomain w.client)) [
    | inl e ↦ rw e (crossdomain-IsExpected w s)
    | inr e ↦ rw e (run-IsExpected w (drop 1 w.client.path) [] s)
  ]
  worker_process_client-IsExpected http_post w s = run-IsExpected w w.client.body [] s
  worker_process_client-IsExpected http_put w s =
      run-IsExpected w (drop 1 w.client.path) w.client.body s
  worker_process_client-IsExpected http_options w s = options-IsExpected w s
  worker_process_client-IsExpected http_other w s =
      send_error-IsExpected w s 405 (codes "Method Not Allowed") (omega arith) (omega arith) refl
