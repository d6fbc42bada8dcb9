-- ===== src/Cmd/Judged.antt =====
-- From the choice of a connection to the call of hiredis, in `cmd_run` of src/cmd.c.
use webdis.Acl.{acl_allow_command}
use webdis.Cmd.{Format, cmd_acl_fail, Cmd, World}
use webdis.Cmd.Filled.{body_args, filled_args}
use webdis.Cmd.Layout.{Front, front_text, front_database, named}
use webdis.Cmd.Parse.{fill_args, Target}
use webdis.Cmd.Request.{Argument, path, EndsFull, bytes_of}
use webdis.Cmd.Run.{put_body, attach, dispatch, run_judged}
use webdis.Cmd.Safety.{attach-Attached, cmd_free-sent}
use webdis.Cmd.SameName.{acl_allow_command-same}
use webdis.Pool.{PoolConf, Connecting}
use webdis.Prelude.Search.{drop_past}
use webdis.Prelude.Text.{Bytes}
use webdis.State.{Conf}
use webdis.Prelude.{
  ℕ, ◌+◌, ◌-◌, ◌≤◌, ◌≡◌, refl, ap, ◌∙◌, inl, inr, some, List, [], ◌∷◌, ◌++◌, append_assoc, arith,
  if◌then◌else◌, Bool-cases, length, length-append, take, drop, take-append, drop-append, drop-add,
  take-all, replicate,
}
use webdis.Cmd.Ready.{Ready, sent_on, result, connection, attach-ac, send_all-result}

-- The name, the arguments decoded, and the body.
abbrev pub argv_of : Bytes → List Argument → Bytes → List Bytes
argv_of name args body = name ∷ bytes_of args ++ body_args body

module _ (cfg : Conf) (pcfg : PoolConf) (answer : Connecting) where
  -- A URI of the front, the name and the arguments, and what stands behind them.
  module _ (f : Front) (name : Bytes) (a : Argument) (args : List Argument) (tail body : Bytes)
      (full : EndsFull (a ∷ args)) where
    abbrev pub uri : Bytes
    uri = front_text f ++ (named name (a ∷ args) ++ tail)

    abbrev pub uri_len : ℕ
    uri_len = length (front_text f ++ named name (a ∷ args))

    abbrev pub target : Target
    target = record {
      database = front_database f;
      name_at = length (front_text f);
      cmd_len = length name;
    }

    abbrev pub values : List Bytes
    values = bytes_of (a ∷ args) ++ body_args body

    from_name : drop (length (front_text f)) uri ≡ name ++ (b'/' ∷ (path (a ∷ args) ++ tail))
    from_name =
        drop-append (front_text f) (named name (a ∷ args) ++ tail)
        ∙ append_assoc name (b'/' ∷ path (a ∷ args)) tail

    pub name_there : take (length name) (drop (length (front_text f)) uri) ≡ name
    name_there =
        ap (take (length name)) from_name ∙ take-append name (b'/' ∷ (path (a ∷ args) ++ tail))

    args_there : drop (length (front_text f) + length name + 1) uri ≡ path (a ∷ args) ++ tail
    args_there =
        let e : length (front_text f) + length name + 1
            ≡ length (front_text f) + (length name + 1) =
          omega arith in
        ap (λ n. drop n uri) e
        ∙ drop-add (length (front_text f)) (length name + 1) uri
        ∙ ap (drop (length name + 1)) from_name
        ∙ drop_past name (path (a ∷ args) ++ tail) b'/'

    args_len : uri_len - (length (front_text f) + length name + 1) ≡ length (path (a ∷ args))
    args_len = omega (
      arith,
      length-append (front_text f) (named name (a ∷ args)),
      length-append name (b'/' ∷ path (a ∷ args)),
    )

    args_within : length (path (a ∷ args)) ≤ length uri
    args_within = omega (
      arith,
      length-append (front_text f) (named name (a ∷ args) ++ tail),
      length-append (named name (a ∷ args)) tail,
      length-append name (b'/' ∷ path (a ∷ args)),
    )

    filled :
        (count k : ℕ) (argv : List Bytes)
        → count ≡ 1 + length values
        → argv ≡ name ∷ replicate (length values + k) []
        → take count (
            put_body body (
              fill_args
                (length uri)
                (drop (length (front_text f) + length name + 1) uri)
                (uri_len - (length (front_text f) + length name + 1))
                1
                argv))
          ≡ name ∷ values
    filled count k argv n e =
        rw (n, e, args_there, args_len)
          (filled_args (length uri) k name (a ∷ args) tail body full args_within)

    dispatch-result :
        (w old : World) (h : ℕ) (format : Format) (cmd : Cmd) (k db s : ℕ)
        → Ready cmd name values k db
        → w.sent ≡ old.sent
        → w.pool ≡ old.pool
        → h ≡ old.next
        → result (dispatch cfg pcfg answer w h format cmd uri uri_len target (some s) body)
          ≡ sent_on old (connection cfg pcfg answer old db (name ∷ values)) format (name ∷ values)
    unfolding dispatch
    dispatch-result w old h format cmd k db s r sent pool next =
        let at = attach-Attached cfg pcfg answer w h cmd in
        let (cmd', w') = attach cfg pcfg answer w h cmd in
        let from = length (front_text f) + length name + 1 in
        let argv =
          put_body body (fill_args (length uri) (drop from uri) (uri_len - from) 1 cmd'.argv) in
        let ac : cmd'.ac ≡ connection cfg pcfg answer old db (name ∷ values) =
          attach-ac cfg pcfg answer w h cmd name values k db r ∙ rw pool refl in
        let there : take cmd'.count argv ≡ name ∷ values =
          filled cmd'.count k cmd'.argv (at.count ∙ r.count) (at.argv ∙ r.argv) in
        send_all-result cfg pcfg answer w' h format (record cmd' { argv = argv })
          (connection cfg pcfg answer old db (name ∷ values)) (name ∷ values) old ac there
          (at.sent ∙ sent) next

    pub run_judged-result :
        (w old : World) (h : ℕ) (format : Format) (cmd : Cmd) (k db s : ℕ)
        → Ready cmd name values k db
        → w.sent ≡ old.sent
        → w.pool ≡ old.pool
        → h ≡ old.next
        → w.client.headers ≡ old.client.headers
        → w.client.addr ≡ old.client.addr
        → result (run_judged cfg pcfg answer w h format cmd uri uri_len target (some s) body) ≡ (
            if acl_allow_command (name ∷ values) cfg old.client
            then sent_on old
                (connection cfg pcfg answer old db (name ∷ values))
                format
                (name ∷ values)
            else (cmd_acl_fail, old.sent))
    unfolding run_judged
    run_judged-result w old h format cmd k db s r sent pool next hs ad =
        let judged : acl_allow_command (take cmd.count cmd.argv) cfg w.client
            ≡ acl_allow_command (name ∷ values) cfg old.client =
          acl_allow_command-same cmd.argv (name ∷ values) cmd.count cfg w.client old.client
            (rw r.argv refl) hs ad
          ∙ ap (λ n. acl_allow_command (take n (name ∷ values)) cfg old.client) r.count
          ∙ ap (λ l. acl_allow_command l cfg old.client)
              (take-all (name ∷ values) {n = 1 + length values} (omega arith)) in
        elim (Bool-cases (acl_allow_command (name ∷ values) cfg old.client)) [
          | inl ok ↦
              rw (judged ∙ ok, ok, run_judged)
                (dispatch-result w old h format cmd k db s r sent pool next)
          | inr refused ↦
              rw (judged ∙ refused, refused, run_judged)
                (ap (λ l. (cmd_acl_fail, l)) (cmd_free-sent cfg pcfg answer w h ∙ sent))
        ]
