-- ===== src/Cmd/Calls.antt =====
-- What `cmd_run` of src/cmd.c sends to Redis for the request that a client puts into its URI.
use mathlib.Core.Path.{subst}
use webdis.Acl.{acl_allow_command}
use webdis.Cmd.{cmd_acl_fail, World, cmd_new}
use webdis.Cmd.Extension.{Selected, forced}
use webdis.Cmd.Filled.{body_args}
use webdis.Cmd.Layout.{
  Front, front_text, front_database, front_count, IsFront, named, IsQuery, strip_query_lem,
  count_params_lem, locate_lem,
}
use webdis.Cmd.Parse.{strip_query, count_params}
use webdis.Cmd.Request.{Argument, EndsFull, bytes_of}
use webdis.Cmd.Run.{put, prepare, run_counted, cmd_run, body_param, database_or}
use webdis.Cmd.Safety.{prepare-client}
use webdis.Cmd.Suffix.{
  Suffix, suffix_text, IsSuffix, format_of, content_type, cmd_select_format_lem,
}
use webdis.Pool.{PoolConf, Connecting}
use webdis.Prelude.Search.{lacks}
use webdis.Prelude.Text.{Bytes}
use webdis.State.{Conf}
use webdis.Prelude.{
  ℕ, ◌+◌, ◌<◌, ◌≡◌, refl, ap, ◌∙◌, true, false, List, ◌∷◌, ◌++◌, append_assoc, arith, ◌==◌,
  if◌then◌else◌, length, length-append, take, take-append, length-map,
}
use webdis.Cmd.Ready.{
  Ready, front_slots, suffix-lacks, length-body_args, sent_on, result, connection, prepare-Ready,
}
use webdis.Cmd.Judged.{uri, uri_len, target, values, name_there, argv_of, run_judged-result}

module _ (cfg : Conf) (pcfg : PoolConf) (answer : Connecting) where
  run_counted-result :
      (w : World) (f : Front) (name : Bytes) (a : Argument) (args : List Argument) (x : Suffix)
      (query body : Bytes) (full : EndsFull (a ∷ args)) (n : ℕ)
      → IsFront f name
      → 0 < length name
      → lacks b'/' name ≡ true
      → IsSuffix x (a ∷ args)
      → n
        ≡ 1
          + length (values cfg pcfg answer f name a args (suffix_text x ++ query) body full)
          + front_count f
      → result (
          run_counted cfg pcfg answer w
            (uri cfg pcfg answer f name a args (suffix_text x ++ query) body full)
            (length (front_text f ++ (named name (a ∷ args) ++ suffix_text x)))
            n
            body)
        ≡ (let argv =
              name ∷ values cfg pcfg answer f name a args (suffix_text x ++ query) body full in
            if acl_allow_command argv cfg w.client
            then sent_on w
                (connection cfg pcfg answer w (database_or cfg pcfg answer (front_database f)) argv)
                (forced w.client.mime (format_of x))
                argv
            else (cmd_acl_fail, w.sent))
  unfolding run_counted cmd_new
  run_counted-result w f name a args x query body full n front l s suffix count =
      let tail = suffix_text x ++ query in
      let u = uri cfg pcfg answer f name a args tail body full in
      let t = target cfg pcfg answer f name a args tail body full in
      let vs = values cfg pcfg answer f name a args tail body full in
      let len = uri_len cfg pcfg answer f name a args tail body full in
      let sel : Selected = record {
        uri_len = len;
        f_format = forced w.client.mime (format_of x);
        mime = content_type x;
      } in
      let select = cmd_select_format_lem w.client.mime f name a args x query l suffix in
      let (slash, found, located) = locate_lem f name (a ∷ args) tail front s in
      let (h, w1) = cmd_new w n in
      let (cmd, client) = prepare cfg pcfg answer w1 n u sel t in
      let kept = prepare-client cfg pcfg answer w1 n u sel t in
      let w2 = put cfg pcfg answer (record w1 { client = client }) h cmd in
      let db = database_or cfg pcfg answer (front_database f) in
      let ready : Ready cmd name vs (front_count f) db =
        subst (λ b. Ready cmd b vs (front_count f) db)
          (name_there cfg pcfg answer f name a args tail body full)
          (prepare-Ready cfg pcfg answer w1 u sel t vs n (front_count f) count
            (front_slots f n (1 + length vs) count)) in
      rw (select, found, located)
        (run_judged-result cfg pcfg answer f name a args tail body full w2 w h sel.f_format cmd
          (front_count f) db slash ready refl refl refl kept.0 kept.1)

  -- A request with a name, at least one argument, and possibly a database in front, an extension of
  -- the table, a query string and a body: when the name has no slash, is not empty, and is no
  -- number unless a database stands before it; when the last argument is not empty, and has no dot
  -- unless an extension stands behind it; and when only the query string has a question mark.
  -- The command is the name, the arguments decoded, and the body as one more. If the access rules
  -- refuse it, nothing is sent; else it is sent with the callback of the extension, on a new
  -- connection for a subscription or another database than that of the configuration, and on one
  -- of the pool otherwise; without a connection it is answered that Redis is unavailable.
  pub cmd_run-request :
      (w : World) (f : Front) (name : Bytes) (a : Argument) (args : List Argument) (x : Suffix)
      (query body : Bytes)
      → IsFront f name
      → 0 < length name
      → lacks b'/' name ≡ true
      → EndsFull (a ∷ args)
      → IsSuffix x (a ∷ args)
      → IsQuery query
      → lacks b'?' (front_text f ++ (named name (a ∷ args) ++ suffix_text x)) ≡ true
      → result (
          cmd_run cfg pcfg answer w
            (front_text f ++ (named name (a ∷ args) ++ (suffix_text x ++ query)))
            body)
        ≡ (if acl_allow_command (argv_of name (a ∷ args) body) cfg w.client
            then sent_on w
                (connection cfg pcfg answer w
                  (database_or cfg pcfg answer (front_database f))
                  (argv_of name (a ∷ args) body))
                (forced w.client.mime (format_of x))
                (argv_of name (a ∷ args) body)
            else (cmd_acl_fail, w.sent))
  unfolding cmd_run
  cmd_run-request w f name a args x query body front l s full suffix q mark =
      let base = front_text f ++ (named name (a ∷ args) ++ suffix_text x) in
      let u = front_text f ++ (named name (a ∷ args) ++ (suffix_text x ++ query)) in
      let split : u ≡ base ++ query = simp (append_assoc) in
      let stripped : strip_query u ≡ length base =
        ap strip_query split ∙ strip_query_lem base query mark q in
      let taken : take (length base) u ≡ base =
        ap (take (length base)) split ∙ take-append base query in
      let counted =
        count_params_lem f name a args (suffix_text x) front l s
          (suffix-lacks x (a ∷ args) suffix) in
      let vs = bytes_of (a ∷ args) ++ body_args body in
      let n = count_params (length base) base + body_param body in
      let size : n ≡ 1 + length vs + front_count f = omega (
        arith,
        counted,
        length-append (bytes_of (a ∷ args)) (body_args body),
        length-map args (λ a. a.bytes),
        length-body_args body,
      ) in
      let z : (n == 0) ≡ false = ground (arith, size) in
      rw (stripped, taken, z, cmd_run)
        (run_counted-result w f name a args x query body full n front l s suffix size)
