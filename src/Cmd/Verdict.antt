-- ===== src/Cmd/Verdict.antt =====
-- What becomes of a request of src/cmd.c: the tests that decide over it, in one place.
use webdis.Acl.{acl_allow_command}
use webdis.Cmd.{
  Format, Response, cmd_sent, cmd_param_error, cmd_acl_fail, cmd_redis_unavail, Cmd, World, cmd_new,
  cmd_is_subscribe,
}
use webdis.Cmd.Extension.{cmd_select_format}
use webdis.Cmd.Parse.{strip_query, count_params, Target, locate}
use webdis.Cmd.Run.{
  put, pooled, attach, send_name, send_all, dispatch, prepare, run_judged, run_counted, cmd_run,
  body_param,
}
use webdis.Cmd.Safety.{acl_allow_command-client, prepare-client}
use webdis.Pool.{PoolConf, Connecting, pool_connect}
use webdis.Prelude.Text.{Bytes, memchr}
use webdis.State.{Conf}
use webdis.Prelude.{
  ℕ, ◌+◌, ◌≡◌, refl, ap, ◌∙◌, inl, inr, Option, none, some, not, ◌||◌, ◌==◌, Bool-cases, take,
  if◌then◌else◌,
}

-- No parameter at all; refused by the access rules; no connection; or sent.
pub data Verdict : Type 0 where
  no_command forbidden unavailable accepted : Verdict

abbrev pub connected_to : Option ℕ → Verdict
connected_to none = unavailable
connected_to (some ac) = accepted

module _ (cfg : Conf) (pcfg : PoolConf) (answer : Connecting) where
  -- A subscription, or another database than that of the configuration, has a connection of its own.
  abbrev pub connection_for : World → Cmd → Option ℕ
  connection_for w cmd =
      if cmd_is_subscribe cmd || not (cmd.database == cfg.database)
      then (pool_connect pcfg w.pool cmd.database answer).0
      else (pooled w.pool).0

  -- The command that a URI names, before its arguments are filled in.
  unfoldable pub named_command : World → Bytes → Bytes → Cmd
  unfolding strip_query count_params cmd_new prepare
  named_command w uri body =
      let uri_len = strip_query uri in
      let n = count_params uri_len (take uri_len uri) + body_param body in
      let w1 = (cmd_new w n).1 in
      let sel = cmd_select_format w1.client.mime uri uri_len in
      (prepare cfg pcfg answer w1 n uri sel
        (locate uri sel.uri_len (memchr uri b'/' sel.uri_len))).0

  unfoldable pub verdict : World → Bytes → Bytes → Verdict
  unfolding named_command
  verdict w uri body =
      let cmd = named_command w uri body in
      if (count_params (strip_query uri) (take (strip_query uri) uri) + body_param body) == 0
      then no_command
      else if acl_allow_command (take cmd.count cmd.argv) cfg w.client
      then connected_to (connection_for w cmd)
      else forbidden

  -- What `cmd_run` is to answer.
  abbrev pub announced : Verdict → Response
  announced no_command = cmd_param_error
  announced forbidden = cmd_acl_fail
  announced unavailable = cmd_redis_unavail
  announced accepted = cmd_sent

  attach-connection_for :
      (w : World) (h : ℕ) (cmd : Cmd) → (attach cfg pcfg answer w h cmd).0.ac ≡ connection_for w cmd
  unfolding attach
  attach-connection_for w h cmd = elim (Bool-cases (cmd_is_subscribe cmd)) [
    | inl y ↦ rw y refl
    | inr n ↦ elim (Bool-cases (cmd.database == cfg.database)) [
      | inl y ↦ rw (n, y) refl
      | inr m ↦ rw (n, m) refl
    ]
  ]

  send_name-announced :
      (w : World) (h : ℕ) (format : Format) (cmd : Cmd) (o : Option ℕ)
      → cmd.ac ≡ o
      → (send_name cfg pcfg answer w h format cmd).0 ≡ announced (connected_to o)
  unfolding send_name
  send_name-announced w h format cmd none e = rw e refl
  send_name-announced w h format cmd (some ac) e = rw e refl

  send_all-announced :
      (w : World) (h : ℕ) (format : Format) (cmd : Cmd) (o : Option ℕ)
      → cmd.ac ≡ o
      → (send_all cfg pcfg answer w h format cmd).0 ≡ announced (connected_to o)
  unfolding send_all
  send_all-announced w h format cmd none e = rw e refl
  send_all-announced w h format cmd (some ac) e = rw e refl

  dispatch-announced :
      (w : World) (h : ℕ) (format : Format) (cmd : Cmd) (uri : Bytes) (uri_len : ℕ) (t : Target)
      (slash : Option ℕ) (body : Bytes)
      → (dispatch cfg pcfg answer w h format cmd uri uri_len t slash body).0
        ≡ announced (connected_to (connection_for w cmd))
  unfolding dispatch
  dispatch-announced w h format cmd uri uri_len t none body =
      let (cmd', w') = attach cfg pcfg answer w h cmd in
      send_name-announced w' h format cmd' (connection_for w cmd) (attach-connection_for w h cmd)
  dispatch-announced w h format cmd uri uri_len t (some s) body =
      let (cmd', w') = attach cfg pcfg answer w h cmd in
      send_all-announced w' h format _ (connection_for w cmd) (attach-connection_for w h cmd)

  run_judged-announced :
      (w : World) (h : ℕ) (format : Format) (cmd : Cmd) (uri : Bytes) (uri_len : ℕ) (t : Target)
      (slash : Option ℕ) (body : Bytes)
      → (run_judged cfg pcfg answer w h format cmd uri uri_len t slash body).0
        ≡ announced (
            if acl_allow_command (take cmd.count cmd.argv) cfg w.client
            then connected_to (connection_for w cmd)
            else forbidden)
  unfolding run_judged
  run_judged-announced w h format cmd uri uri_len t slash body =
      elim (Bool-cases (acl_allow_command (take cmd.count cmd.argv) cfg w.client)) [
        | inl ok ↦ rw (ok, run_judged) (dispatch-announced w h format cmd uri uri_len t slash body)
        | inr refused ↦ rw (refused, run_judged) refl
      ]

  run_counted-announced :
      (w : World) (uri body : Bytes)
      → let uri_len = strip_query uri in
        let n = count_params uri_len (take uri_len uri) + body_param body in
        let cmd = named_command w uri body in
        (run_counted cfg pcfg answer w uri uri_len n body).0
        ≡ announced (
            if acl_allow_command (take cmd.count cmd.argv) cfg w.client
            then connected_to (connection_for w cmd)
            else forbidden)
  unfolding run_counted cmd_new put named_command
  run_counted-announced w uri body =
      let uri_len = strip_query uri in
      let n = count_params uri_len (take uri_len uri) + body_param body in
      let (h, w1) = cmd_new w n in
      let sel = cmd_select_format w1.client.mime uri uri_len in
      let slash = memchr uri b'/' sel.uri_len in
      let target = locate uri sel.uri_len slash in
      let (cmd, client) = prepare cfg pcfg answer w1 n uri sel target in
      let kept = prepare-client cfg pcfg answer w1 n uri sel target in
      let w2 = put cfg pcfg answer (record w1 { client = client }) h cmd in
      run_judged-announced w2 h sel.f_format cmd uri sel.uri_len target slash body
      ∙ ap (λ b. announced (if b then connected_to (connection_for w cmd) else forbidden))
          (acl_allow_command-client (take cmd.count cmd.argv) cfg client w.client kept.0 kept.1)

  -- The answer of `cmd_run` is that of the tests.
  pub cmd_run-verdict :
      (w : World) (uri body : Bytes)
      → (cmd_run cfg pcfg answer w uri body).0 ≡ announced (verdict w uri body)
  unfolding cmd_run verdict
  cmd_run-verdict w uri body =
      elim (Bool-cases
        ((count_params (strip_query uri) (take (strip_query uri) uri) + body_param body) == 0)) [
          | inl z ↦ rw (z, cmd_run) refl
          | inr z ↦ rw (z, cmd_run) (run_counted-announced w uri body)
        ]
