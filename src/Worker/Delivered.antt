-- ===== src/Worker/Delivered.antt =====
-- A GET request on its way from the HTTP parser to Redis: src/client.c, src/worker.c and src/cmd.c.
use mathlib.Core.Path.{subst}
use webdis.Acl.{acl_allow_command}
use webdis.Client.{Parsed, http_client_reset, note_version, default_path, is_text}
use webdis.Cmd.{World, Response, Sent, cmd_sent, cmd_param_error, cmd_acl_fail, cmd_redis_unavail}
use webdis.Cmd.Calls.{cmd_run-request}
use webdis.Cmd.Extension.{forced}
use webdis.Cmd.Judged.{argv_of}
use webdis.Cmd.Kept.{cmd_run-KeepsHttp}
use webdis.Cmd.Layout.{Front, front_text, front_database, IsFront, named, IsQuery}
use webdis.Cmd.Ready.{result, connection, sent_on}
use webdis.Cmd.Request.{Argument, EndsFull, path}
use webdis.Cmd.Run.{cmd_run, database_or}
use webdis.Cmd.Safety.{acl_allow_command-client}
use webdis.Cmd.Suffix.{Suffix, suffix_text, IsSuffix, format_of}
use webdis.Http.Send.{http_send_error}
use webdis.Pool.{PoolConf, Connecting}
use webdis.Prelude.Search.{lacks}
use webdis.Prelude.Text.{Bytes, codes}
use webdis.State.{Conf}
use webdis.Worker.{http_get, settle, worker_process_client}
use webdis.Worker.Early.{Early, url_of, Early-Kept, run_callbacks-append}
use webdis.Worker.Answers.{refusal, IsResponse, IsExpected, settle-IsExpected}
use webdis.Cmd.Answered.{cmd_run-Answered}
use webdis.Http.{Sending}
use webdis.Worker.Reading.{Callback, on_message_complete, Output, response, run_callbacks}
use webdis.Prelude.{
  ℕ, suc, ◌<◌, ◌≡◌, refl, sym, ap, ◌∙◌, true, false, Option, none, some, List, [], ◌∷◌, ◌++◌, map,
  append-nil, arith, ◌==◌, if◌then◌else◌, length, length-append,
}

-- The responses that answer a request: none, or one to the descriptor, with the code.
abbrev pub AnsweredBy : Option ℕ → ℕ → Bytes → List Sending → Type 0
AnsweredBy none fd s sends = sends ≡ []
AnsweredBy (some code) fd s sends = (x : Sending) × (sends ≡ x ∷ []) × IsResponse fd code s x

AnsweredBy-expected :
    (o : Option ℕ) (w : World) (s : Bytes) (r : World × List Sending)
    → IsExpected o w s r
    → AnsweredBy o w.client.fd s r.1
AnsweredBy-expected none w s r (e, c) = e
AnsweredBy-expected (some code) w s r (e, x) = x

settle_lem :
    (r : Response × World)
    → ((settle r).0.sent ≡ r.1.sent) × ((settle r).0.client.is_websocket ≡ r.1.client.is_websocket)
unfolding settle http_send_error
settle_lem (cmd_sent, w) = (refl, refl)
settle_lem (cmd_param_error, w) = (refl, refl)
settle_lem (cmd_acl_fail, w) = (refl, refl)
settle_lem (cmd_redis_unavail, w) = (refl, refl)

-- A path with something behind its slash is not replaced.
default_path-more :
    (root : Option Bytes) (u : Bytes) → 0 < length u → default_path root (b'/' ∷ u) ≡ b'/' ∷ u
unfolding default_path
default_path-more none u h = refl
default_path-more (some root) u h =
    let n : (suc (length u) == 1) ≡ false = ground arith in rw n refl

module _ (cfg : Conf) (pcfg : PoolConf) (answer : Connecting) where
  -- The end of a message, run with the path `s`.
  completed : Parsed → World → Bytes → World × List Output
  completed p w s =
      let c = note_version w.client p in
      let (w', sends) =
        worker_process_client cfg pcfg answer http_get
          (record w { client = record c { path = s } }) in
      (record w' { client = http_client_reset w'.client }, map response sends ++ [])

  complete_lem :
      (p : Parsed) (w : World)
      → p.upgrade ≡ false
      → run_callbacks cfg pcfg answer (on_message_complete http_get p ∷ []) w
        ≡ completed p w (default_path cfg.default_root w.client.path)
  unfolding completed run_callbacks
  complete_lem p w up = rw up refl

  -- Where a request is run: its URI is `front/name/arguments`, with an extension and a query string.
  module _ (w : World) (f : Front) (name : Bytes) (a : Argument) (args : List Argument) (x : Suffix)
      (query : Bytes) where
    abbrev pub request_uri : Bytes
    request_uri = front_text f ++ (named name (a ∷ args) ++ (suffix_text x ++ query))

    -- What the request is to come to.
    abbrev pub outcome : Response × List Sent
    outcome =
        if acl_allow_command (argv_of name (a ∷ args) []) cfg w.client
        then sent_on w
            (connection cfg pcfg answer w (database_or cfg pcfg answer (front_database f))
              (argv_of name (a ∷ args) []))
            (forced w.client.mime (format_of x)) (argv_of name (a ∷ args) [])
        else (cmd_acl_fail, w.sent)

  module _ (w : World) (f : Front) (name : Bytes) (a : Argument) (args : List Argument) (x : Suffix)
      (query : Bytes) (front : IsFront f name) (l : 0 < length name) (s : lacks b'/' name ≡ true)
      (full : EndsFull (a ∷ args)) (suffix : IsSuffix x (a ∷ args)) (q : IsQuery query)
      (mark : lacks b'?' (front_text f ++ (named name (a ∷ args) ++ suffix_text x)) ≡ true) where
    process-outcome :
        (p : Parsed) (s : Bytes)
        → is_text (b'/' ∷ request_uri w f name a args x query) (codes "/crossdomain.xml") ≡ false
        → let c = note_version w.client p in
          let w1 = record w {
            client = record c { path = b'/' ∷ request_uri w f name a args x query };
          } in
          let (w2, sends) = worker_process_client cfg pcfg answer http_get w1 in
          let o = outcome w f name a args x query in
          (w2.sent ≡ o.1)
          × AnsweredBy (refusal o.0) w.client.fd s sends
          × (w2.client.is_websocket ≡ w.client.is_websocket)
    unfolding worker_process_client note_version
    process-outcome p s' n =
        let c = note_version w.client p in
        let u = request_uri w f name a args x query in
        let w1 = record w { client = record c { path = b'/' ∷ u } } in
        let r = cmd_run cfg pcfg answer w1 u [] in
        let ran =
          cmd_run-request cfg pcfg answer w1 f name a args x query [] front l s full suffix q
            mark in
        let allowed : acl_allow_command (argv_of name (a ∷ args) []) cfg w1.client
            ≡ acl_allow_command (argv_of name (a ∷ args) []) cfg w.client =
          acl_allow_command-client (argv_of name (a ∷ args) []) cfg w1.client w.client refl refl in
        let e : result r ≡ outcome w f name a args x query = rw (sym allowed) ran in
        let (sent, http) = settle_lem r in
        let sends =
          AnsweredBy-expected (refusal r.0) w1 s' (settle r)
            (settle-IsExpected w1 s' r (cmd_run-Answered cfg pcfg answer w1 u [])) in
        rw n (
          sent ∙ ap (λ o. o.1) e,
          subst (λ o. AnsweredBy (refusal o) w.client.fd s' (settle r).1) (ap (λ o. o.0) e) sends,
          http ∙ cmd_run-KeepsHttp cfg pcfg answer w1 u [],
        )

  -- The end of the message of a request, at a client that has the whole URL.
  module _ (w : World) (f : Front) (name : Bytes) (a : Argument) (args : List Argument) (x : Suffix)
      (query : Bytes) (front : IsFront f name) (l : 0 < length name) (s : lacks b'/' name ≡ true)
      (full : EndsFull (a ∷ args)) (suffix : IsSuffix x (a ∷ args)) (q : IsQuery query)
      (mark : lacks b'?' (front_text f ++ (named name (a ∷ args) ++ suffix_text x)) ≡ true) where
    complete-outcome :
        (p : Parsed) (s' : Bytes)
        → p.upgrade ≡ false
        → w.client.path ≡ b'/' ∷ request_uri w f name a args x query
        → is_text (b'/' ∷ request_uri w f name a args x query) (codes "/crossdomain.xml") ≡ false
        → let (w', out) = run_callbacks cfg pcfg answer (on_message_complete http_get p ∷ []) w in
          let o = outcome w f name a args x query in
          (w'.sent ≡ o.1)
          × ((sends : List Sending) × (out ≡ map response sends)
              × AnsweredBy (refusal o.0) w.client.fd s' sends)
          × (w'.client.is_websocket ≡ w.client.is_websocket)
          × (w'.client.request_sz ≡ 0)
    unfolding completed http_client_reset note_version
    complete-outcome p s' up url n =
        let u = request_uri w f name a args x query in
        let more : 0 < length u = omega (
          arith,
          length-append (front_text f) (named name (a ∷ args) ++ (suffix_text x ++ query)),
          length-append (named name (a ∷ args)) (suffix_text x ++ query),
          length-append name (b'/' ∷ path (a ∷ args)),
        ) in
        let ran : run_callbacks cfg pcfg answer (on_message_complete http_get p ∷ []) w
            ≡ completed p w (b'/' ∷ u) =
          complete_lem p w up
          ∙ ap (λ t. completed p w (default_path cfg.default_root t)) url
          ∙ ap (completed p w) (default_path-more cfg.default_root u more) in
        let (sent, sends, http) =
          process-outcome w f name a args x query front l s full suffix q mark p s' n in
        let w2 = record w { client = record (note_version w.client p) { path = b'/' ∷ u } } in
        let out = (worker_process_client cfg pcfg answer http_get w2).1 in
        (
          ap (λ (r : World × List Output). r.0.sent) ran ∙ sent,
          (out, ap (λ (r : World × List Output). r.1) ran ∙ append-nil (map response out), sends),
          ap (λ (r : World × List Output). r.0.client.is_websocket) ran ∙ http,
          ap (λ (r : World × List Output). r.0.client.request_sz) ran,
        )

  -- The world after the callbacks in front of the end of the message.
  abbrev pub before_end : World → List Callback → World
  before_end w early = (run_callbacks cfg pcfg answer early w).0

  -- The whole request, up to the end of its message.
  module _ (w : World) (early : List Callback) (f : Front) (name : Bytes) (a : Argument)
      (args : List Argument) (x : Suffix) (query : Bytes) (front : IsFront f name)
      (l : 0 < length name) (s : lacks b'/' name ≡ true) (full : EndsFull (a ∷ args))
      (suffix : IsSuffix x (a ∷ args)) (q : IsQuery query)
      (mark : lacks b'?' (front_text f ++ (named name (a ∷ args) ++ suffix_text x)) ≡ true) where
    pub callbacks-outcome :
        (p : Parsed) (s' : Bytes)
        → p.upgrade ≡ false
        → Early early
        → w.client.path ≡ []
        → url_of early ≡ b'/' ∷ request_uri w f name a args x query
        → is_text (b'/' ∷ request_uri w f name a args x query) (codes "/crossdomain.xml") ≡ false
        → let (w', out) =
            run_callbacks cfg pcfg answer (early ++ (on_message_complete http_get p ∷ [])) w in
          let o = outcome (before_end w early) f name a args x query in
          (w'.sent ≡ o.1)
          × ((sends : List Sending) × (out
                ≡ (run_callbacks cfg pcfg answer early w).1 ++ map response sends)
              × AnsweredBy (refusal o.0) w.client.fd s' sends)
          × (w'.client.is_websocket ≡ w.client.is_websocket)
          × (w'.client.request_sz ≡ 0)
    callbacks-outcome p s' up before empty url n =
        let (whole, fd, http) = Early-Kept cfg pcfg answer early w before in
        let w1 = before_end w early in
        let at : w1.client.path ≡ b'/' ∷ request_uri w f name a args x query =
          whole ∙ ap (λ t. t ++ url_of early) empty ∙ url in
        let (sent, (sends, outs, by), ws, z) =
          complete-outcome w1 f name a args x query front l s full suffix q mark p s' up at n in
        let joined =
          run_callbacks-append cfg pcfg answer early (on_message_complete http_get p ∷ []) w in
        let o = outcome w1 f name a args x query in
        (
          ap (λ (r : World × List Output). r.0.sent) joined ∙ sent,
          (
            sends,
            ap (λ (r : World × List Output). r.1) joined
                ∙ ap (λ t. (run_callbacks cfg pcfg answer early w).1 ++ t) outs,
            subst (λ k. AnsweredBy (refusal o.0) k s' sends) fd by,
          ),
          ap (λ (r : World × List Output). r.0.client.is_websocket) joined ∙ ws ∙ http,
          ap (λ (r : World × List Output). r.0.client.request_sz) joined ∙ z,
        )
