-- ===== src/Cmd/Safety.antt =====
-- The commands that `cmd_run` of src/cmd.c sends, against the access rules.
use webdis.Acl.{acl_allow_command}
use webdis.Cmd.{Format, Cmd, Sent, World, cmd_new, cmd_free}
use webdis.Cmd.Extension.{Selected, cmd_select_format}
use webdis.Cmd.Parse.{strip_query, count_params, Target, locate, fill_args}
use webdis.Cmd.Run.{
  put, attach, send_name, put_body, send_all, dispatch, prepare, run_judged, run_counted, cmd_run,
  body_param,
}
use webdis.Cmd.Transfer.{cmd_setup}
use webdis.Pool.{PoolConf, Connecting}
use webdis.Prelude.Text.{Bytes, memchr}
use webdis.State.{Conf, HttpClient}
use webdis.Prelude.{
  ℕ, zero, suc, ◌+◌, ◌-◌, ◌≡◌, refl, sym, ap, ◌∙◌, ◌⊎◌, inl, inr, true, Option, none, some, List,
  [], ◌∷◌, ◌++◌, arith, ◌==◌, Bool-cases, Option-cases, length, take, drop,
}
use webdis.Cmd.SameName.{
  fill_args-SameName, put_body-SameName, scan_perms-same, acl_allow_command-same,
}

-- What the choice of a connection leaves alone.
pub record Attached (w : World) (cmd cmd' : Cmd) (w' : World) : Type 0 where
  pub argv : cmd'.argv ≡ cmd.argv
  pub count : cmd'.count ≡ cmd.count
  pub sent : w'.sent ≡ w.sent
  pub headers : w'.client.headers ≡ w.client.headers
  pub addr : w'.client.addr ≡ w.client.addr
  pub fd : w'.client.fd ≡ w.client.fd

-- What `dispatch` and the functions below it may add to the calls of hiredis.
abbrev pub SendsAtMost : (List Bytes → Type 0) → World → World → Type 0
SendsAtMost P w w' = (w'.sent ≡ w.sent) ⊎ ((m : Sent) × (w'.sent ≡ w.sent ++ (m ∷ [])) × P m.argv)

-- The access rules allow the command to the client.
abbrev pub Allowed : Conf → HttpClient → List Bytes → Type 0
Allowed cfg client argv = acl_allow_command argv cfg client ≡ true

SendsAtMost-weaken :
    (P Q : List Bytes → Type 0) (w w1 w2 : World)
    → w1.sent ≡ w.sent
    → ((argv : List Bytes) → P argv → Q argv)
    → SendsAtMost P w1 w2
    → SendsAtMost Q w w2
SendsAtMost-weaken P Q w w1 w2 e f (inl s) = inl (s ∙ e)
SendsAtMost-weaken P Q w w1 w2 e f (inr (m, s, p)) =
    inr (m, s ∙ ap (λ l. l ++ (m ∷ [])) e, f m.argv p)

pub acl_allow_command-client :
    (argv : List Bytes) (cfg : Conf) (c d : HttpClient)
    → c.headers ≡ d.headers
    → c.addr ≡ d.addr
    → acl_allow_command argv cfg c ≡ acl_allow_command argv cfg d
unfolding acl_allow_command
acl_allow_command-client [] cfg c d h a = refl
acl_allow_command-client (x ∷ xs) cfg c d h a =
    rw (a, scan_perms-same c d x d.addr true cfg.perms h)

-- The first argument alone is judged like all.
acl_allow_command-one :
    (xs : List Bytes) (n : ℕ) (cfg : Conf) (c : HttpClient)
    → acl_allow_command (take n xs) cfg c ≡ true
    → acl_allow_command (take 1 xs) cfg c ≡ true
unfolding acl_allow_command
acl_allow_command-one xs zero cfg c h = absurd (cc)
acl_allow_command-one [] (suc n) cfg c h = absurd (cc)
acl_allow_command-one (x ∷ xs) (suc n) cfg c h = h

module _ (cfg : Conf) (pcfg : PoolConf) (answer : Connecting) where
  pub attach-Attached :
      (w : World) (h : ℕ) (cmd : Cmd)
      → let (cmd', w') = attach cfg pcfg answer w h cmd in Attached w cmd cmd' w'
  unfolding attach
  attach-Attached w h cmd = record {
    argv = ground arith;
    count = ground arith;
    sent = ground arith;
    headers = ground arith;
    addr = ground arith;
    fd = ground arith;
  }

  pub cmd_free-sent : (w : World) (h : ℕ) → (cmd_free cfg w h).sent ≡ w.sent
  unfolding cmd_free
  cmd_free-sent w h = ground arith

  -- Every set of arguments that is sent has the slots and the name of the command's own, or is
  -- its first slot alone.
  send_name-sends :
      (w : World) (h : ℕ) (format : Format) (cmd : Cmd)
      → SendsAtMost (λ a. a ≡ take 1 cmd.argv) w (send_name cfg pcfg answer w h format cmd).1
  unfolding send_name
  send_name-sends w h format cmd = elim (Option-cases cmd.ac) [
    | inl e ↦ inl (ground (arith, cmd_free-sent w h))
    | inr (ac, e) ↦
        inr
          (record { ac = ac; format = format; cmd = h; argv = take 1 cmd.argv }, ground arith, refl)
  ]

  send_all-sends :
      (w : World) (h : ℕ) (format : Format) (cmd : Cmd)
      → SendsAtMost (λ a. a ≡ take cmd.count cmd.argv) w (send_all cfg pcfg answer w h format cmd).1
  unfolding send_all
  send_all-sends w h format cmd = elim (Option-cases cmd.ac) [
    | inl e ↦ inl (ground (arith, cmd_free-sent (put cfg pcfg answer w h cmd) h))
    | inr (ac, e) ↦ inr (
      record { ac = ac; format = format; cmd = h; argv = take cmd.count cmd.argv },
      ground arith,
      refl,
    )
  ]

  dispatch-sends :
      (w : World) (h : ℕ) (format : Format) (cmd : Cmd) (uri : Bytes) (uri_len : ℕ) (t : Target)
      (slash : Option ℕ) (body : Bytes)
      → Allowed cfg w.client (take cmd.count cmd.argv)
      → SendsAtMost
          (Allowed cfg w.client)
          w
          (dispatch cfg pcfg answer w h format cmd uri uri_len t slash body).1
  unfolding dispatch
  dispatch-sends w h format cmd uri uri_len t none body ok =
      let at = attach-Attached w h cmd in
      let (cmd', w') = attach cfg pcfg answer w h cmd in
      SendsAtMost-weaken (λ a. a ≡ take 1 cmd'.argv) (Allowed cfg w.client) w w'
        (send_name cfg pcfg answer w' h format cmd').1 at.sent
        (λ argv e. rw (e, at.argv) (acl_allow_command-one cmd.argv cmd.count cfg w.client ok))
        (send_name-sends w' h format cmd')
  dispatch-sends w h format cmd uri uri_len t (some s) body ok =
      let at = attach-Attached w h cmd in
      let (cmd', w') = attach cfg pcfg answer w h cmd in
      let from = t.name_at + t.cmd_len + 1 in
      let filled = fill_args (length uri) (drop from uri) (uri_len - from) 1 cmd'.argv in
      let argv' = put_body body filled in
      let kept =
        fill_args-SameName (length uri) (drop from uri) (uri_len - from) 1 cmd'.argv
          (omega arith) in
      let same = put_body-SameName body cmd'.argv filled kept.0 kept.1 in
      let judged : Allowed cfg w.client (take cmd'.count argv') =
        sym (acl_allow_command-same cmd'.argv argv' cmd'.count cfg w.client w.client same refl refl)
        ∙ rw (at.argv, at.count) ok in
      SendsAtMost-weaken (λ a. a ≡ take cmd'.count argv') (Allowed cfg w.client) w w'
        (send_all cfg pcfg answer w' h format (record cmd' { argv = argv' })).1 at.sent
        (λ argv e. rw e judged) (send_all-sends w' h format (record cmd' { argv = argv' }))

  run_judged-sends :
      (w : World) (h : ℕ) (format : Format) (cmd : Cmd) (uri : Bytes) (uri_len : ℕ) (t : Target)
      (slash : Option ℕ) (body : Bytes)
      → SendsAtMost
          (Allowed cfg w.client)
          w
          (run_judged cfg pcfg answer w h format cmd uri uri_len t slash body).1
  unfolding run_judged
  run_judged-sends w h format cmd uri uri_len t slash body =
      elim (Bool-cases (acl_allow_command (take cmd.count cmd.argv) cfg w.client)) [
        | inl ok ↦ rw (ok, run_judged) (dispatch-sends w h format cmd uri uri_len t slash body ok)
        | inr refused ↦ rw (refused, run_judged) (inl (cmd_free-sent w h))
      ]

  -- What `prepare` leaves of the client.
  pub prepare-client :
      (w : World) (n : ℕ) (uri : Bytes) (sel : Selected) (t : Target)
      → let client = (prepare cfg pcfg answer w n uri sel t).1 in
        (client.headers ≡ w.client.headers) × (client.addr ≡ w.client.addr)
  unfolding prepare cmd_setup
  prepare-client w n uri sel t = (refl, refl)

  run_counted-sends :
      (w : World) (uri : Bytes) (uri_len param_count : ℕ) (body : Bytes)
      → SendsAtMost
          (Allowed cfg w.client)
          w
          (run_counted cfg pcfg answer w uri uri_len param_count body).1
  unfolding run_counted cmd_new
  run_counted-sends w uri uri_len param_count body =
      let (h, w1) = cmd_new w param_count in
      let sel = cmd_select_format w1.client.mime uri uri_len in
      let slash = memchr uri b'/' sel.uri_len in
      let target = locate uri sel.uri_len slash in
      let (cmd, client) = prepare cfg pcfg answer w1 param_count uri sel target in
      let w2 = put cfg pcfg answer (record w1 { client = client }) h cmd in
      let kept = prepare-client w1 param_count uri sel target in
      SendsAtMost-weaken (Allowed cfg client) (Allowed cfg w.client) w w2
        (run_judged cfg pcfg answer w2 h sel.f_format cmd uri sel.uri_len target slash body).1 refl
        (λ argv ok. sym (acl_allow_command-client argv cfg client w.client kept.0 kept.1) ∙ ok)
        (run_judged-sends w2 h sel.f_format cmd uri sel.uri_len target slash body)

  -- A request adds at most one command to what is sent to Redis, and the access rules allow that
  -- command to its client, with the arguments that are sent: for every URI and body, whatever
  -- the state of the pool and the answer of hiredis.
  pub cmd_run-sends :
      (w : World) (uri body : Bytes)
      → SendsAtMost (Allowed cfg w.client) w (cmd_run cfg pcfg answer w uri body).1
  unfolding cmd_run
  cmd_run-sends w uri body = elim (Bool-cases (count == 0)) [
    | inl z ↦ rw (z, cmd_run) (inl refl)
    | inr z ↦ rw (z, cmd_run) (run_counted-sends w uri (strip_query uri) count body)
  ]
    where
      count : ℕ
      count = count_params (strip_query uri) (take (strip_query uri) uri) + body_param body
