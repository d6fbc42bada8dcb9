-- ===== src/Cmd/Kept.antt =====
-- `cmd_run` of src/cmd.c does not make a WebSocket of its client.
use webdis.Acl.{acl_allow_command}
use webdis.Cmd.{Format, Cmd, World, cmd_new, cmd_free}
use webdis.Cmd.Extension.{cmd_select_format}
use webdis.Cmd.Parse.{fill_args, strip_query, count_params, Target, locate}
use webdis.Cmd.Run.{
  put_body, put, attach, send_name, send_all, dispatch, prepare, run_judged, run_counted, cmd_run,
  body_param,
}
use webdis.Cmd.Transfer.{cmd_setup}
use webdis.Pool.{PoolConf, Connecting}
use webdis.Prelude.Text.{Bytes, memchr}
use webdis.State.{Conf}
use webdis.Prelude.{
  ℕ, ◌+◌, ◌-◌, ◌≡◌, refl, ◌∙◌, inl, inr, Option, none, some, arith, ◌==◌, Bool-cases, length, take,
  drop,
}

module _ (cfg : Conf) (pcfg : PoolConf) (answer : Connecting) where
  -- The client's flag is as it was.
  abbrev KeepsHttp : World → World → Type 0
  KeepsHttp w w' = w'.client.is_websocket ≡ w.client.is_websocket

  cmd_free-KeepsHttp : (w : World) (h : ℕ) → KeepsHttp w (cmd_free cfg w h)
  unfolding cmd_free
  cmd_free-KeepsHttp w h = ground arith

  attach-KeepsHttp :
      (w : World) (h : ℕ) (cmd : Cmd) → KeepsHttp w (attach cfg pcfg answer w h cmd).1
  unfolding attach
  attach-KeepsHttp w h cmd = ground arith

  send_name-KeepsHttp :
      (w : World) (h : ℕ) (format : Format) (cmd : Cmd)
      → KeepsHttp w (send_name cfg pcfg answer w h format cmd).1
  unfolding send_name
  send_name-KeepsHttp w h format cmd = ground (arith, cmd_free-KeepsHttp w h)

  send_all-KeepsHttp :
      (w : World) (h : ℕ) (format : Format) (cmd : Cmd)
      → KeepsHttp w (send_all cfg pcfg answer w h format cmd).1
  unfolding send_all put
  send_all-KeepsHttp w h format cmd =
      ground (arith, cmd_free-KeepsHttp (put cfg pcfg answer w h cmd) h)

  dispatch-KeepsHttp :
      (w : World) (h : ℕ) (format : Format) (cmd : Cmd) (uri : Bytes) (uri_len : ℕ) (t : Target)
      (slash : Option ℕ) (body : Bytes)
      → KeepsHttp w (dispatch cfg pcfg answer w h format cmd uri uri_len t slash body).1
  unfolding dispatch
  dispatch-KeepsHttp w h format cmd uri uri_len t none body =
      let (cmd', w') = attach cfg pcfg answer w h cmd in
      send_name-KeepsHttp w' h format cmd' ∙ attach-KeepsHttp w h cmd
  dispatch-KeepsHttp w h format cmd uri uri_len t (some s) body =
      let (cmd', w') = attach cfg pcfg answer w h cmd in
      let from = t.name_at + t.cmd_len + 1 in
      let argv =
        put_body body (fill_args (length uri) (drop from uri) (uri_len - from) 1 cmd'.argv) in
      send_all-KeepsHttp w' h format (record cmd' { argv = argv }) ∙ attach-KeepsHttp w h cmd

  run_judged-KeepsHttp :
      (w : World) (h : ℕ) (format : Format) (cmd : Cmd) (uri : Bytes) (uri_len : ℕ) (t : Target)
      (slash : Option ℕ) (body : Bytes)
      → KeepsHttp w (run_judged cfg pcfg answer w h format cmd uri uri_len t slash body).1
  unfolding run_judged
  run_judged-KeepsHttp w h format cmd uri uri_len t slash body =
      elim (Bool-cases (acl_allow_command (take cmd.count cmd.argv) cfg w.client)) [
        | inl ok ↦ rw (ok, run_judged) (dispatch-KeepsHttp w h format cmd uri uri_len t slash body)
        | inr refused ↦ rw (refused, run_judged) (cmd_free-KeepsHttp w h)
      ]

  run_counted-KeepsHttp :
      (w : World) (uri : Bytes) (uri_len param_count : ℕ) (body : Bytes)
      → KeepsHttp w (run_counted cfg pcfg answer w uri uri_len param_count body).1
  unfolding run_counted cmd_new prepare cmd_setup
  run_counted-KeepsHttp w uri uri_len param_count body =
      let (h, w1) = cmd_new w param_count in
      let sel = cmd_select_format w1.client.mime uri uri_len in
      let slash = memchr uri b'/' sel.uri_len in
      let target = locate uri sel.uri_len slash in
      let (cmd, client) = prepare cfg pcfg answer w1 param_count uri sel target in
      let w2 = put cfg pcfg answer (record w1 { client = client }) h cmd in
      run_judged-KeepsHttp w2 h sel.f_format cmd uri sel.uri_len target slash body

  pub cmd_run-KeepsHttp :
      (w : World) (uri body : Bytes)
      → (cmd_run cfg pcfg answer w uri body).1.client.is_websocket ≡ w.client.is_websocket
  unfolding cmd_run
  cmd_run-KeepsHttp w uri body =
      let n = count_params (strip_query uri) (take (strip_query uri) uri) + body_param body in
      elim (Bool-cases (n == 0)) [
        | inl z ↦ rw (z, cmd_run) refl
        | inr z ↦ rw (z, cmd_run) (run_counted-KeepsHttp w uri (strip_query uri) n body)
      ]
