-- ===== src/Cmd/Answered.antt =====
-- What the answer of `cmd_run` of src/cmd.c says of the commands that are sent.
use webdis.Acl.{acl_allow_command}
use webdis.Cmd.{
  Sent, Format, Response, cmd_sent, cmd_param_error, cmd_acl_fail, cmd_redis_unavail, Cmd, Sent,
  World, cmd_new, cmd_free,
}
use webdis.Cmd.Extension.{cmd_select_format}
use webdis.Cmd.Parse.{fill_args, strip_query, count_params, Target, locate}
use webdis.Cmd.Run.{
  put_body, put, attach, send_name, send_all, dispatch, prepare, run_judged, run_counted, cmd_run,
  body_param,
}
use webdis.Cmd.Safety.{attach-Attached, cmd_free-sent}
use webdis.Cmd.Transfer.{cmd_setup}
use webdis.Pool.{PoolConf, Connecting}
use webdis.Prelude.Text.{Bytes, memchr}
use webdis.State.{Conf}
use webdis.Prelude.{
  drop, length, ◌-◌, ℕ, ◌+◌, ◌≡◌, refl, ap, ◌∙◌, inl, inr, Option, none, some, List, [], ◌∷◌, ◌++◌,
  arith, ◌==◌, Bool-cases, Option-cases, take,
}

-- One command more after `cmd_sent`, and none after another answer.
abbrev pub IsAnswer : Response → List Sent → List Sent → Type 0
IsAnswer cmd_sent old new = (m : Sent) × (new ≡ old ++ (m ∷ []))
IsAnswer _ old new = new ≡ old

-- With the client's socket as it was.
abbrev pub Answered : World → Response × World → Type 0
Answered w (answer, w') = IsAnswer answer w.sent w'.sent × (w'.client.fd ≡ w.client.fd)

IsAnswer-old :
    (answer : Response) (old old' new : List Sent)
    → old' ≡ old
    → IsAnswer answer old' new
    → IsAnswer answer old new
IsAnswer-old cmd_sent old old' new e (m, s) = (m, s ∙ ap (λ l. l ++ (m ∷ [])) e)
IsAnswer-old cmd_param_error old old' new e s = s ∙ e
IsAnswer-old cmd_acl_fail old old' new e s = s ∙ e
IsAnswer-old cmd_redis_unavail old old' new e s = s ∙ e

Answered-old :
    (w w1 : World) (r : Response × World)
    → w1.sent ≡ w.sent
    → w1.client.fd ≡ w.client.fd
    → Answered w1 r
    → Answered w r
Answered-old w w1 r e e' (s, f) = (IsAnswer-old r.0 w.sent w1.sent r.1.sent e s, f ∙ e')

module _ (cfg : Conf) (pcfg : PoolConf) (answer : Connecting) where
  cmd_free-fd : (w : World) (h : ℕ) → (cmd_free cfg w h).client.fd ≡ w.client.fd
  unfolding cmd_free
  cmd_free-fd w h = ground arith

  send_name-Answered :
      (w : World) (h : ℕ) (format : Format) (cmd : Cmd)
      → Answered w (send_name cfg pcfg answer w h format cmd)
  unfolding send_name
  send_name-Answered w h format cmd = elim (Option-cases cmd.ac) [
    | inl e ↦ rw e (cmd_free-sent cfg pcfg answer w h, cmd_free-fd w h)
    | inr (ac, e) ↦ rw e ((_, refl), refl)
  ]

  send_all-Answered :
      (w : World) (h : ℕ) (format : Format) (cmd : Cmd)
      → Answered w (send_all cfg pcfg answer w h format cmd)
  unfolding send_all put
  send_all-Answered w h format cmd = elim (Option-cases cmd.ac) [
    | inl e ↦
        let w' = put cfg pcfg answer w h cmd in
        let is : (send_all cfg pcfg answer w h format cmd).0 ≡ cmd_redis_unavail = ground arith in
        (
          rw is (ground (arith, cmd_free-sent cfg pcfg answer w' h)),
          ground (arith, cmd_free-fd w' h),
        )
    | inr (ac, e) ↦
        let is : (send_all cfg pcfg answer w h format cmd).0 ≡ cmd_sent = ground arith in
        let m : Sent = record {
          ac = ac;
          format = format;
          cmd = h;
          argv = take cmd.count cmd.argv;
        } in
        (rw is (m, ground arith), ground arith)
  ]

  dispatch-Answered :
      (w : World) (h : ℕ) (format : Format) (cmd : Cmd) (uri : Bytes) (uri_len : ℕ) (t : Target)
      (slash : Option ℕ) (body : Bytes)
      → Answered w (dispatch cfg pcfg answer w h format cmd uri uri_len t slash body)
  unfolding dispatch
  dispatch-Answered w h format cmd uri uri_len t none body =
      let at = attach-Attached cfg pcfg answer w h cmd in
      let (cmd', w') = attach cfg pcfg answer w h cmd in
      Answered-old w w' (send_name cfg pcfg answer w' h format cmd') at.sent at.fd
        (send_name-Answered w' h format cmd')
  dispatch-Answered w h format cmd uri uri_len t (some s) body =
      let at = attach-Attached cfg pcfg answer w h cmd in
      let (cmd', w') = attach cfg pcfg answer w h cmd in
      let from = t.name_at + t.cmd_len + 1 in
      let argv =
        put_body body (fill_args (length uri) (drop from uri) (uri_len - from) 1 cmd'.argv) in
      Answered-old w w' (send_all cfg pcfg answer w' h format (record cmd' { argv = argv })) at.sent
        at.fd (send_all-Answered w' h format (record cmd' { argv = argv }))

  run_judged-Answered :
      (w : World) (h : ℕ) (format : Format) (cmd : Cmd) (uri : Bytes) (uri_len : ℕ) (t : Target)
      (slash : Option ℕ) (body : Bytes)
      → Answered w (run_judged cfg pcfg answer w h format cmd uri uri_len t slash body)
  unfolding run_judged
  run_judged-Answered w h format cmd uri uri_len t slash body =
      elim (Bool-cases (acl_allow_command (take cmd.count cmd.argv) cfg w.client)) [
        | inl ok ↦ rw (ok, run_judged) (dispatch-Answered w h format cmd uri uri_len t slash body)
        | inr refused ↦
            rw (refused, run_judged) (cmd_free-sent cfg pcfg answer w h, cmd_free-fd w h)
      ]

  run_counted-Answered :
      (w : World) (uri : Bytes) (uri_len param_count : ℕ) (body : Bytes)
      → Answered w (run_counted cfg pcfg answer w uri uri_len param_count body)
  unfolding run_counted cmd_new prepare cmd_setup
  run_counted-Answered w uri uri_len param_count body =
      let (h, w1) = cmd_new w param_count in
      let sel = cmd_select_format w1.client.mime uri uri_len in
      let slash = memchr uri b'/' sel.uri_len in
      let target = locate uri sel.uri_len slash in
      let (cmd, client) = prepare cfg pcfg answer w1 param_count uri sel target in
      let w2 = put cfg pcfg answer (record w1 { client = client }) h cmd in
      Answered-old w w2 (run_counted cfg pcfg answer w uri uri_len param_count body) refl refl
        (run_judged-Answered w2 h sel.f_format cmd uri sel.uri_len target slash body)

  pub cmd_run-Answered :
      (w : World) (uri body : Bytes) → Answered w (cmd_run cfg pcfg answer w uri body)
  unfolding cmd_run
  cmd_run-Answered w uri body =
      let n = count_params (strip_query uri) (take (strip_query uri) uri) + body_param body in
      elim (Bool-cases (n == 0)) [
        | inl z ↦ rw (z, cmd_run) (refl, refl)
        | inr z ↦ rw (z, cmd_run) (run_counted-Answered w uri (strip_query uri) n body)
      ]
