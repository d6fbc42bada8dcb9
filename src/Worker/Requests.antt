-- ===== src/Worker/Requests.antt =====
-- From the bytes of a GET request to the command that Redis gets: `worker_can_read` of src/worker.c
-- with the callbacks of src/client.c and `cmd_run` of src/cmd.c.
use mathlib.Core.Path.{subst}
use webdis.Client.{Parsed, http_client_read, http_client_execute, is_text}
use webdis.Cmd.{World, Response, Sent}
use webdis.Cmd.Layout.{Front, front_text, IsFront, named, IsQuery}
use webdis.Cmd.Request.{Argument, EndsFull}
use webdis.Cmd.Suffix.{Suffix, suffix_text, IsSuffix}
use webdis.Formats.Extract.{JsonText, ReaderAnswer}
use webdis.Pool.{PoolConf, Connecting}
use webdis.Prelude.Search.{lacks}
use webdis.Prelude.Text.{Bytes, codes}
use webdis.State.{Conf}
use webdis.Worker.Delivered.{request_uri, outcome, callbacks-outcome, before_end, AnsweredBy}
use webdis.Worker.Early.{Early, url_of, Early-client}
use webdis.Worker.Answers.{refusal}
use webdis.Worker.{http_get}
use webdis.Http.{Sending}
use webdis.Worker.Reading.{
  Callback, on_message_complete, response, Output, Reading, Read, run_callbacks, run_reading,
  finish, judge, after_execute, read_on, worker_can_read,
}
use webdis.Worker.Upkeep.{IsListening, if-true, if-false}
use webdis.Prelude.{
  map, ℕ, ◌<◌, ◌≡◌, refl, sym, ap, ◌∙◌, inl, inr, Bool, true, false, not, ◌&&◌, Option, none, some,
  List, [], ◌∷◌, ◌++◌, arith, ltb, ◌==◌, if◌then◌else◌, ==_iff, Bool-cases, length,
}

-- The read ends, with what it has sent to Redis, and after the output `early` the responses that
-- answer the request.
abbrev pub EndsWith : Response × List Sent → ℕ → Bytes → List Output → Option Read → Type 0
EndsWith o fd s early read =
    (r : Read) × (read ≡ some r)
    × (r.world.sent ≡ o.1)
    × ((sends : List Sending) × (r.out ≡ early ++ map response sends)
        × AnsweredBy (refusal o.0) fd s sends)
    × (r.ws ≡ none)

abbrev emptied : Bool → World → World
emptied b w = if not b then record w { client = record (w.client) { buffer = [] } } else w

emptied-kept :
    (b : Bool) (w : World)
    → ((emptied b w).sent ≡ w.sent)
      × ((emptied b w).client.is_websocket ≡ w.client.is_websocket)
      × ((emptied b w).client.request_sz ≡ w.client.request_sz)
emptied-kept true w = (refl, refl, refl)
emptied-kept false w = (refl, refl, refl)

module _ (cfg : Conf) (pcfg : PoolConf) (answer : Connecting) where
  -- A request that is parsed whole, and is none for an upgrade, is not refused.
  judge-quiet :
      (r : Reading) (ret : ℕ) (w : World) (out : List Output)
      → r.nparsed ≡ ret
      → w.client.request_sz ≡ 0
      → judge cfg pcfg answer r ret w out ≡ finish cfg pcfg answer w out none
  unfolding judge
  judge-quiet r ret w out n z =
      let parsed : (r.nparsed == ret) ≡ true = (==_iff r.nparsed ret).1 n in
      let small : ltb cfg.http_max_request_size w.client.request_sz ≡ false = ground arith in
      if-false _ _ _ (ap not parsed) ∙ if-false _ _ _ small

  module _ (loads : Bytes → Option JsonText) (reader : Bytes → ReaderAnswer)
      (json_ws_error : ℕ → Bytes → Bytes) (sha1 base64 : Bytes → Bytes) where
    after_execute-quiet :
        (o : Response × List Sent) (fd : ℕ) (s : Bytes) (early : List Output) (r : Reading)
        (ret : ℕ) (w : World) (out : List Output)
        → w.sent ≡ o.1
        → (sends : List Sending) × (out ≡ early ++ map response sends)
          × AnsweredBy (refusal o.0) fd s sends
        → w.client.is_websocket ≡ false
        → w.client.request_sz ≡ 0
        → r.nparsed ≡ ret
        → EndsWith o fd s early
            (after_execute cfg pcfg answer loads reader json_ws_error sha1 base64 r ret w out)
    unfolding after_execute finish
    after_execute-quiet o fd s early r ret w out sent sends h z n =
        elim (Bool-cases (r.connection_close && w.client.fully_read)) [
          | inl c ↦
              subst (EndsWith o fd s early) (sym (if-true _ _ _ c)) (_, refl, sent, sends, refl)
          | inr c ↦
              subst (EndsWith o fd s early)
                (sym (if-false _ _ _ c ∙ if-false _ _ _ h ∙ ap some (judge-quiet r ret w out n z)))
                (_, refl, sent, sends, refl)
        ]

    -- The buffer is emptied, and nothing else.
    execute-kept :
        (parser : Bytes → Reading) (w : World)
        → let w' = (run_callbacks cfg pcfg answer (parser w.client.buffer).callbacks w).0 in
          let w1 = (http_client_execute (λ s. run_reading cfg pcfg answer (parser s)) w).1 in
          (w1.sent ≡ w'.sent)
          × (w1.client.is_websocket ≡ w'.client.is_websocket)
          × (w1.client.request_sz ≡ w'.client.request_sz)
    unfolding http_client_execute run_reading
    execute-kept parser w =
        let w' = (run_callbacks cfg pcfg answer (parser w.client.buffer).callbacks w).0 in
        emptied-kept w'.client.is_websocket w'

    read_on-request :
        (o : Response × List Sent) (fd : ℕ) (s : Bytes) (early : List Output)
        (parser : Bytes → Reading) (ret : ℕ) (w : World)
        → w.client.is_websocket ≡ false
        → (parser w.client.buffer).nparsed ≡ ret
        → (let (w', out) = run_callbacks cfg pcfg answer (parser w.client.buffer).callbacks w in
            (w'.sent ≡ o.1)
            × ((sends : List Sending) × (out ≡ early ++ map response sends)
                × AnsweredBy (refusal o.0) fd s sends)
            × (w'.client.is_websocket ≡ w.client.is_websocket)
            × (w'.client.request_sz ≡ 0))
        → EndsWith o fd s early
            (read_on cfg pcfg answer loads reader json_ws_error sha1 base64 parser ret w)
    unfolding read_on http_client_execute run_reading
    read_on-request o fd s early parser ret w h n (sent, sends, http, z) =
        let (sent', http', z') = execute-kept parser w in
        let (nparsed, w1, out) =
          http_client_execute (λ b. run_reading cfg pcfg answer (parser b)) w in
        subst (EndsWith o fd s early) (sym (if-false _ _ _ h)) (
          after_execute-quiet o fd s early (parser w.client.buffer) ret w1 out (sent' ∙ sent) sends
            (http' ∙ http ∙ h) (z' ∙ z) n)

    -- A client that listens, and has no part of a URL yet, sends a GET request, which the parser
    -- reports whole in one read: any callbacks (the URL in any pieces, the query string, headers, a
    -- body) and then the end of the message, with no upgrade. The URL is that of a command with its
    -- arguments, under the conditions of `cmd_run-request`, and not that of the cross-domain
    -- policy. The callbacks in front of the end change the client alone. Then the read ends, without a
    -- WebSocket client. What it adds to what is sent to Redis
    -- is the command with its arguments decoded, once, if the access rules allow it to the client
    -- with the headers of this request and there is a connection, with the callback of the type
    -- that the query string asks for, or else of the extension; and nothing otherwise. After what
    -- the headers have made go out, the client gets no response if the command is sent, and exactly
    -- one otherwise, on its descriptor: 403 if the command is refused, 503 without a connection.
    pub worker_can_read-request :
        (parser : Bytes → Reading) (w : World) (b : ℕ) (chunk : Bytes) (p : Parsed)
        (early : List Callback) (close : Bool) (f : Front) (name : Bytes) (a : Argument)
        (args : List Argument) (x : Suffix) (query s : Bytes)
        → IsListening w
        → w.client.path ≡ []
        → parser (b ∷ chunk) ≡ record {
          callbacks = early ++ (on_message_complete http_get p ∷ []);
          nparsed = length (b ∷ chunk);
          connection_close = close;
        }
        → Early early
        → p.upgrade ≡ false
        → url_of early ≡ b'/' ∷ request_uri cfg pcfg answer w f name a args x query
        → is_text
            (b'/' ∷ request_uri cfg pcfg answer w f name a args x query)
            (codes "/crossdomain.xml")
          ≡ false
        → IsFront f name
        → 0 < length name
        → lacks b'/' name ≡ true
        → EndsFull (a ∷ args)
        → IsSuffix x (a ∷ args)
        → IsQuery query
        → lacks b'?' (front_text f ++ (named name (a ∷ args) ++ suffix_text x)) ≡ true
        → let w1 = (http_client_read cfg w (b ∷ chunk)).1 in
          let w2 = before_end cfg pcfg answer w1 early in
          (w2 ≡ record w { client = w2.client })
          × EndsWith
              (outcome cfg pcfg answer w2 f name a args x query)
              w.client.fd
              s
              (run_callbacks cfg pcfg answer early w1).1
              (worker_can_read cfg pcfg answer loads reader json_ws_error sha1 base64 parser w
                (b ∷ chunk))
    unfolding worker_can_read http_client_read
    worker_can_read-request parser w b chunk p early close f name a args x query s li empty parsed
          before up url n front l slash full suffix q mark =
        let bytes = b ∷ chunk in
        let w1 = (http_client_read cfg w bytes).1 in
        let o =
          outcome cfg pcfg answer (before_end cfg pcfg answer w1 early) f name a args x query in
        let first = (run_callbacks cfg pcfg answer early w1).1 in
        let given : parser w1.client.buffer ≡ parser bytes =
          ap (λ t. parser (t ++ bytes)) li.empty in
        let ran =
          callbacks-outcome cfg pcfg answer w1 early f name a args x query front l slash full suffix
            q mark p s up before empty url n in
        let reading = given ∙ parsed in
        (
          Early-client cfg pcfg answer early w1 before,
          read_on-request o w.client.fd s first parser (length bytes) w1 li.http
              (ap (λ (r : Reading). r.nparsed) reading)
              (subst
                (λ (r : Reading).
                  let (w', out) = run_callbacks cfg pcfg answer r.callbacks w1 in
                  (w'.sent ≡ o.1)
                  × ((sends : List Sending) × (out ≡ first ++ map response sends)
                      × AnsweredBy (refusal o.0) w.client.fd s sends)
                  × (w'.client.is_websocket ≡ w1.client.is_websocket)
                  × (w'.client.request_sz ≡ 0))
                (sym reading) ran),
        )
