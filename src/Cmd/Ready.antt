-- ===== src/Cmd/Ready.antt =====
-- The command of `cmd_run` (src/cmd.c) before its arguments are filled in, and the connection it gets.
use webdis.Cmd.{
  Format, Response, cmd_sent, cmd_redis_unavail, Cmd, Sent, World, has_name, cmd_is_subscribe,
  empty_cmd,
}
use webdis.Cmd.Extension.{Selected}
use webdis.Cmd.Filled.{body_args}
use webdis.Cmd.Layout.{Front, front_database, front_count}
use webdis.Cmd.Parse.{Target}
use webdis.Cmd.Request.{Argument}
use webdis.Cmd.Run.{put, attach, pooled, count_of, send_all, prepare, body_param, database_or}
use webdis.Cmd.Safety.{cmd_free-sent}
use webdis.Cmd.Suffix.{Suffix, suffix_text, IsSuffix}
use webdis.Cmd.Transfer.{cmd_setup, setup_headers, setup_header}
use webdis.Pool.{PoolConf, Connecting, pool_connect}
use webdis.Prelude.Search.{lacks}
use webdis.Prelude.Text.{Bytes, codes}
use webdis.State.{Header, Conf}
use webdis.Prelude.{
  ℕ, suc, ◌+◌, ◌≡◌, refl, ap, ◌∙◌, inl, inr, Bool, true, false, not, ◌&&◌, ◌||◌, Option, none, some,
  List, [], ◌∷◌, ◌++◌, arith, leb, ◌==◌, if◌then◌else◌, Bool-cases, length, set, take, drop,
  replicate,
}

-- A command that is ready for its arguments: the name in the first slot, and `k` slots more than
-- the values to come need.
pub record Ready (cmd : Cmd) (name : Bytes) (vs : List Bytes) (k db : ℕ) : Type 0 where
  pub argv : cmd.argv ≡ name ∷ replicate (length vs + k) []
  pub count : cmd.count ≡ 1 + length vs
  pub database : cmd.database ≡ db
  pub single : cmd.pub_sub_client ≡ false

setup_headers-kept :
    (cmd : Cmd) (hs : List Header)
    → ((setup_headers cmd hs).argv ≡ cmd.argv)
      × ((setup_headers cmd hs).pub_sub_client ≡ cmd.pub_sub_client)
unfolding setup_headers
setup_headers-kept cmd [] = (refl, refl)
setup_headers-kept cmd (h ∷ hs) =
    let (a, p) = setup_headers-kept (setup_header cmd h) hs in (a ∙ kept_argv, p ∙ kept_client)
  where
    kept_argv : (setup_header cmd h).argv ≡ cmd.argv
    kept_argv = ground arith

    kept_client : (setup_header cmd h).pub_sub_client ≡ cmd.pub_sub_client
    kept_client = ground arith

abbrev pub subscribes : List Bytes → Bool
subscribes argv =
    leb 2 (length argv) && (has_name (codes "subscribe") argv || has_name (codes "psubscribe") argv)

is_subscribe-Ready :
    (cmd : Cmd) (name : Bytes) (vs : List Bytes) (k db : ℕ)
    → Ready cmd name vs k db
    → cmd_is_subscribe cmd ≡ subscribes (name ∷ vs)
unfolding cmd_is_subscribe
is_subscribe-Ready cmd name vs k db r =
    let n : 1 + length vs ≡ suc (length vs) = omega arith in rw (r.single, r.count, r.argv, n) refl

pub front_slots : (f : Front) (n m : ℕ) → n ≡ m + front_count f → count_of (front_database f) n ≡ m
front_slots none n m h = omega arith
front_slots (some d) n m h = omega arith

pub suffix-lacks :
    (x : Suffix) (args : List Argument) → IsSuffix x args → lacks b'/' (suffix_text x) ≡ true
suffix-lacks none args h = refl
suffix-lacks (some (s, r)) args (n, d, l, e) = l

pub length-body_args : (body : Bytes) → length (body_args body) ≡ body_param body
length-body_args [] = refl
length-body_args (b ∷ body) = refl

-- What is sent, on the connection if there is one.
abbrev pub sent_on : World → Option ℕ → Format → List Bytes → Response × List Sent
sent_on w none format argv = (cmd_redis_unavail, w.sent)
sent_on w (some ac) format argv =
    (cmd_sent, w.sent ++ (record { ac = ac; format = format; cmd = w.next; argv = argv } ∷ []))

abbrev pub result : Response × World → Response × List Sent
result (answer, w) = (answer, w.sent)

module _ (cfg : Conf) (pcfg : PoolConf) (answer : Connecting) where
  -- A new connection for a subscription or a database of its own, or one of the pool.
  abbrev pub connection : World → ℕ → List Bytes → Option ℕ
  connection w db argv =
      if subscribes argv || not (db == cfg.database)
      then (pool_connect pcfg w.pool db answer).0
      else (pooled w.pool).0

  pub prepare-Ready :
      (w : World) (uri : Bytes) (sel : Selected) (t : Target) (vs : List Bytes) (n k : ℕ)
      → n ≡ 1 + length vs + k
      → count_of t.database n ≡ 1 + length vs
      → Ready
          (prepare cfg pcfg answer w n uri sel t).0
          (take t.cmd_len (drop t.name_at uri))
          vs
          k
          (database_or cfg pcfg answer t.database)
  unfolding prepare cmd_setup empty_cmd
  prepare-Ready w uri sel t vs n k e c =
      let fresh = record (empty_cmd n) {
        fd = some (w.client.fd);
        database = cfg.database;
        mime = sel.mime;
        keep_alive = w.client.keep_alive;
      } in
      let (a, p) = setup_headers-kept fresh w.client.headers in
      let size : n ≡ suc (length vs + k) = omega arith in
      let name = take t.cmd_len (drop t.name_at uri) in
      record {
        argv = ap (λ l. set l 0 name) a ∙ ap (λ m. set (replicate m []) 0 name) size;
        count = c;
        database = refl;
        single = p;
      }

  pub attach-ac :
      (w : World) (h : ℕ) (cmd : Cmd) (name : Bytes) (vs : List Bytes) (k db : ℕ)
      → Ready cmd name vs k db
      → (attach cfg pcfg answer w h cmd).0.ac ≡ connection w db (name ∷ vs)
  unfolding attach
  attach-ac w h cmd name vs k db r =
      let sub = is_subscribe-Ready cmd name vs k db r in
      elim (Bool-cases (subscribes (name ∷ vs))) [
        | inl y ↦ rw (sub ∙ y, y, r.database) refl
        | inr n ↦ elim (Bool-cases (db == cfg.database)) [
          | inl y ↦ rw (sub ∙ n, n, r.database, y) refl
          | inr m ↦ rw (sub ∙ n, n, r.database, m) refl
        ]
      ]

  pub send_all-result :
      (w : World) (h : ℕ) (format : Format) (cmd : Cmd) (ac : Option ℕ) (argv : List Bytes)
      (old : World)
      → cmd.ac ≡ ac
      → take cmd.count cmd.argv ≡ argv
      → w.sent ≡ old.sent
      → h ≡ old.next
      → result (send_all cfg pcfg answer w h format cmd) ≡ sent_on old ac format argv
  unfolding send_all put
  send_all-result w h format cmd none argv old e a s n =
      let freed = cmd_free-sent cfg pcfg answer (put cfg pcfg answer w h cmd) h in
      let first : (send_all cfg pcfg answer w h format cmd).0 ≡ cmd_redis_unavail = rw e refl in
      let last : (send_all cfg pcfg answer w h format cmd).1.sent ≡ old.sent =
        ground (arith, freed) in
      ap (λ r. (r, (send_all cfg pcfg answer w h format cmd).1.sent)) first
      ∙ ap (λ l. (cmd_redis_unavail, l)) last
  send_all-result w h format cmd (some ac) argv old e a s n = rw (e, a, s, n) refl
