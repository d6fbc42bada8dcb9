-- ===== src/Cmd/Run.antt =====
-- `cmd_run` and `cmd_send` of src/cmd.c.
use webdis.Acl.{acl_allow_command}
use webdis.Cmd.{
  Format, Response, cmd_sent, cmd_param_error, cmd_acl_fail, cmd_redis_unavail, Cmd, World, update,
  empty_cmd, cmd_new, cmd_is_subscribe, cmd_free,
}
use webdis.Cmd.Extension.{Selected, cmd_select_format}
use webdis.Cmd.Parse.{strip_query, count_params, Target, locate, fill_args}
use webdis.Cmd.Transfer.{cmd_setup}
use webdis.Pool.{Pool, PoolConf, Connecting, pool_connect, pool_get_context}
use webdis.Prelude.Text.{Bytes, memchr}
use webdis.State.{Conf, HttpClient}
use webdis.Prelude.{
  ℕ, ◌+◌, ◌-◌, true, not, Option, none, some, List, [], ◌∷◌, ◌++◌, ◌==◌, if◌then◌else◌, length, set,
  take, drop,
}

-- `pool_get_context`; on a valid pool its fuel never runs out (Pool.Rotation).
unfoldable pub pooled : Pool → Option ℕ × Pool
pooled p = elim (pool_get_context p) [ none ↦ (none, p) | some r ↦ r ]

abbrev pub body_param : Bytes → ℕ
body_param [] = 0
body_param (b ∷ body) = 1

-- The body of a PUT goes into the slot after the last argument.
unfoldable pub put_body : Bytes → ℕ × List Bytes → List Bytes
put_body [] (cur_param, argv) = argv
put_body (b ∷ body) (cur_param, argv) = set argv cur_param (b ∷ body)

-- A database in front has been counted as a parameter.
abbrev pub count_of : Option ℕ → ℕ → ℕ
count_of none n = n
count_of (some db) n = n - 1

-- The configuration, and what hiredis answers if a connection is made.
module _ (cfg : Conf) (pcfg : PoolConf) (answer : Connecting) where
  unfoldable pub put : World → ℕ → Cmd → World
  put w h cmd = record w { cmds = update w.cmds h (some cmd) }

  -- A connection of its own for the database of the command.
  unfoldable pub connect_own : World → Cmd → Option ℕ × World
  connect_own w cmd =
      let (ac, queued, pool) = pool_connect pcfg w.pool cmd.database answer in
      (ac, record w { pool = pool; queued = w.queued ++ queued })

  -- The choice of a connection. The command is in the heap afterwards, with its connection.
  unfoldable pub attach : World → ℕ → Cmd → Cmd × World
  unfolding put connect_own pooled
  attach w h cmd =
      if cmd_is_subscribe cmd
      then (let (ac, w') = connect_own w cmd in
          let cmd' = record cmd { ac = ac; pub_sub_client = true } in
          (cmd', put (record w' { client = record (w'.client) { reused_cmd = some h } }) h cmd'))
      else if not (cmd.database == cfg.database)
      then (let (ac, w') = connect_own w cmd in
          let cmd' = record cmd { ac = ac } in (cmd', put w' h cmd'))
      else (let (ac, pool) = pooled w.pool in
          let cmd' = record cmd { ac = ac } in (cmd', put (record w { pool = pool }) h cmd'))

  -- `redisAsyncCommandArgv` with the first `count` arguments.
  unfoldable pub send_argv : World → ℕ → Format → ℕ → ℕ → List Bytes → World
  send_argv w ac format h count argv = record w {
    sent = w.sent ++ (record { ac = ac; format = format; cmd = h; argv = take count argv } ∷ []);
  }

  -- With no slash the name alone is sent.
  unfoldable pub send_name : World → ℕ → Format → Cmd → Response × World
  unfolding send_argv
  send_name w h format cmd = elim cmd.ac [
    | none ↦ (cmd_redis_unavail, cmd_free cfg w h)
    | some ac ↦ (cmd_sent, send_argv w ac format h 1 cmd.argv)
  ]

  unfoldable pub send_all : World → ℕ → Format → Cmd → Response × World
  unfolding send_argv put
  send_all w h format cmd = elim cmd.ac [
    | none ↦
        (let w' = cmd_free cfg (put w h cmd) h in
          (cmd_redis_unavail, record w' { client = record (w'.client) { reused_cmd = none } }))
    | some ac ↦ (cmd_sent, send_argv (put w h cmd) ac format h cmd.count cmd.argv)
  ]

  -- From the choice of a connection on.
  unfoldable pub dispatch :
      World → ℕ → Format → Cmd → Bytes → ℕ → Target → Option ℕ → Bytes → Response × World
  unfolding attach send_name send_all put_body
  dispatch w h format cmd uri uri_len target slash body =
      let (cmd', w') = attach w h cmd in
      let from = target.name_at + target.cmd_len + 1 in
      let argv =
        put_body body (fill_args (length uri) (drop from uri) (uri_len - from) 1 cmd'.argv) in
      elim slash [
        | none ↦ send_name w' h format cmd'
        | some s ↦ send_all w' h format (record cmd' { argv = argv })
      ]

  abbrev pub database_or : Option ℕ → ℕ
  database_or none = cfg.database
  database_or (some db) = db

  -- The new command with its format, its client's strings, its database and its name.
  unfoldable pub prepare : World → ℕ → Bytes → Selected → Target → Cmd × HttpClient
  unfolding empty_cmd
  prepare w param_count uri sel target =
      let fresh = record (empty_cmd param_count) {
        fd = some (w.client.fd);
        database = cfg.database;
        mime = sel.mime;
      } in
      let (cmd, client) = cmd_setup fresh w.client in
      (
        record cmd {
          database = database_or target.database;
          count = count_of target.database param_count;
          argv = set cmd.argv 0 (take target.cmd_len (drop target.name_at uri));
        },
        client,
      )

  -- From the check of the access rules on; the command is in the heap.
  unfoldable pub run_judged :
      World → ℕ → Format → Cmd → Bytes → ℕ → Target → Option ℕ → Bytes → Response × World
  unfolding dispatch
  run_judged w h format cmd uri uri_len target slash body =
      if not (acl_allow_command (take cmd.count cmd.argv) cfg w.client)
      then (cmd_acl_fail, cmd_free cfg w h)
      else dispatch w h format cmd uri uri_len target slash body

  -- From `cmd_new` on.
  unfoldable pub run_counted : World → Bytes → ℕ → ℕ → Bytes → Response × World
  unfolding prepare put run_judged
  run_counted w uri uri_len param_count body =
      let (h, w1) = cmd_new w param_count in
      let sel = cmd_select_format w1.client.mime uri uri_len in
      let slash = memchr uri b'/' sel.uri_len in
      let target = locate uri sel.uri_len slash in
      let (cmd, client) = prepare w1 param_count uri sel target in
      run_judged (put (record w1 { client = client }) h cmd) h sel.f_format cmd uri sel.uri_len
        target slash body

  unfoldable pub cmd_run : World → Bytes → Bytes → Response × World
  unfolding strip_query count_params run_counted
  cmd_run w uri body =
      let uri_len = strip_query uri in
      let param_count = count_params uri_len (take uri_len uri) + body_param body in
      if param_count == 0 then (cmd_param_error, w) else run_counted w uri uri_len param_count body
