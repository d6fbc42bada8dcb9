-- ===== src/Cmd/Heap.antt =====
-- The heap of commands under `cmd_run` of src/cmd.c: what is allocated, freed and pointed to.
use mathlib.Core.Path.{subst}
use webdis.Acl.{acl_allow_command}
use webdis.Cmd.{
  Format, Response, cmd_sent, cmd_redis_unavail, Cmd, World, cmd_is_subscribe, cmd_free, free_found,
  detach_last_cmd,
}
use webdis.Cmd.Parse.{fill_args, Target}
use webdis.Cmd.Run.{put_body, put, attach, send_name, send_all, send_argv, dispatch, run_judged}
use webdis.Pool.{PoolConf, Connecting}
use webdis.Prelude.Text.{Bytes}
use webdis.State.{Conf}
use webdis.Prelude.{
  drop, length, ◌-◌, ℕ, ◌+◌, ◌≡◌, refl, sym, ◌∙◌, inl, inr, Option, none, some, true, false, ◌==◌,
  ==_iff, Bool-cases, Option-cases, take,
}

-- The command of the handle is there, knows its client, and is the client's last one.
pub record Holds (w : World) (h : ℕ) (cmd : Cmd) : Type 0 where
  pub live : w.cmds h ≡ some cmd
  pub attached : cmd.http_client ≡ true
  pub last : w.client.last_cmd ≡ some h

-- No other command is touched.
pub record SparesOthers (w : World) (h : ℕ) (w' : World) : Type 0 where
  pub others : (k : ℕ) → (k == h) ≡ false → w'.cmds k ≡ w.cmds k
  pub next : w'.next ≡ w.next

-- After `cmd_sent` the command is there; after another answer it is freed, and no pointer is left.
abbrev pub IsSettled : ℕ → Response → World → Type 0
IsSettled h cmd_sent w = (cmd : Cmd) × Holds w h cmd
IsSettled h _ w = (w.cmds h ≡ none) × (w.client.last_cmd ≡ none)

abbrev pub IsAccounted : World → ℕ → Response × World → Type 0
IsAccounted w h (answer, w') = IsSettled h answer w' × SparesOthers w h w'

SparesOthers-trans :
    (w w1 w2 : World) (h : ℕ) → SparesOthers w h w1 → SparesOthers w1 h w2 → SparesOthers w h w2
SparesOthers-trans w w1 w2 h a b = record {
  others = λ k n. b.others k n ∙ a.others k n;
  next = b.next ∙ a.next;
}

module _ (cfg : Conf) (pcfg : PoolConf) (answer : Connecting) where
  cmd_free-none :
      (w : World) (h : ℕ) (cmd : Cmd)
      → Holds w h cmd
      → ((cmd_free cfg w h).cmds h ≡ none) × ((cmd_free cfg w h).client.last_cmd ≡ none)
  unfolding cmd_free free_found detach_last_cmd
  cmd_free-none w h cmd o =
      let same : (h == h) ≡ true = (==_iff h h).1 refl in
      rw (o.live, same, o.attached, o.last) (refl, rw same)

  cmd_free-SparesOthers : (w : World) (h : ℕ) → SparesOthers w h (cmd_free cfg w h)
  unfolding cmd_free free_found
  cmd_free-SparesOthers w h = elim (Option-cases (w.cmds h)) [
    | inl e ↦ rw e (record { others = λ k n. refl; next = refl })
    | inr (cmd, e) ↦ rw e (record { others = λ k n. rw n; next = refl })
  ]

  put-SparesOthers :
      (w : World) (h : ℕ) (cmd : Cmd) → SparesOthers w h (put cfg pcfg answer w h cmd)
  unfolding put
  put-SparesOthers w h cmd = record { others = λ k n. rw n; next = refl }

  pub put-Holds :
      (w : World) (h : ℕ) (cmd : Cmd)
      → cmd.http_client ≡ true
      → w.client.last_cmd ≡ some h
      → Holds (put cfg pcfg answer w h cmd) h cmd
  unfolding put
  put-Holds w h cmd a l = record { live = rw ((==_iff h h).1 refl); attached = a; last = l }

  attach-Holds :
      (w : World) (h : ℕ) (cmd : Cmd)
      → Holds w h cmd
      → let (cmd', w') = attach cfg pcfg answer w h cmd in Holds w' h cmd' × SparesOthers w h w'
  unfolding attach put
  attach-Holds w h cmd o = elim (Bool-cases (cmd_is_subscribe cmd)) [
    | inl sub ↦
        rw sub (put-Holds _ h _ o.attached o.last, record { others = λ k n. rw n; next = refl })
    | inr sub ↦ elim (Bool-cases (cmd.database == cfg.database)) [
      | inl db ↦
          rw (sub, db)
            (put-Holds _ h _ o.attached o.last, record { others = λ k n. rw n; next = refl })
      | inr db ↦
          rw (sub, db)
            (put-Holds _ h _ o.attached o.last, record { others = λ k n. rw n; next = refl })
    ]
  ]

  send_name-IsAccounted :
      (w : World) (h : ℕ) (format : Format) (cmd : Cmd)
      → Holds w h cmd
      → IsAccounted w h (send_name cfg pcfg answer w h format cmd)
  unfolding send_name send_argv
  send_name-IsAccounted w h format cmd o = elim (Option-cases cmd.ac) [
    | inl e ↦ rw e (cmd_free-none w h cmd o, cmd_free-SparesOthers w h)
    | inr (ac, e) ↦ rw e (
      (cmd, record { live = o.live; attached = o.attached; last = o.last }),
      record { others = λ k n. refl; next = refl },
    )
  ]

  -- The last test of `cmd_run` touches the pointer to the reused command alone.
  send_all-IsAccounted :
      (w : World) (h : ℕ) (format : Format) (cmd : Cmd)
      → cmd.http_client ≡ true
      → w.client.last_cmd ≡ some h
      → IsAccounted w h (send_all cfg pcfg answer w h format cmd)
  unfolding send_all send_argv
  send_all-IsAccounted w h format cmd a l =
      let w1 = put cfg pcfg answer w h cmd in
      let o1 = put-Holds w h cmd a l in
      let spared = put-SparesOthers w h cmd in
      elim (Option-cases cmd.ac) [
        | inl e ↦
            let w2 = cmd_free cfg w1 h in
            let w3 = record w2 { client = record (w2.client) { reused_cmd = none } } in
            let rest = SparesOthers-trans w w1 w2 h spared (cmd_free-SparesOthers w1 h) in
            let is : send_all cfg pcfg answer w h format cmd ≡ (cmd_redis_unavail, w3) =
              simp (e, send_all) in
            subst (IsAccounted w h) (sym is)
              (cmd_free-none w1 h cmd o1, record { others = rest.others; next = rest.next })
        | inr (ac, e) ↦
            let w2 = send_argv cfg pcfg answer w1 ac format h cmd.count cmd.argv in
            let is : send_all cfg pcfg answer w h format cmd ≡ (cmd_sent, w2) =
              simp (e, send_all) in
            subst (IsAccounted w h) (sym is) (
              (cmd, record { live = o1.live; attached = o1.attached; last = o1.last }),
              record { others = spared.others; next = spared.next },
            )
      ]

  IsAccounted-trans :
      (w w1 : World) (h : ℕ) (r : Response × World)
      → SparesOthers w h w1
      → IsAccounted w1 h r
      → IsAccounted w h r
  IsAccounted-trans w w1 h r s (settled, rest) = (settled, SparesOthers-trans w w1 r.1 h s rest)

  dispatch-IsAccounted :
      (w : World) (h : ℕ) (format : Format) (cmd : Cmd) (uri : Bytes) (uri_len : ℕ) (t : Target)
      (slash : Option ℕ) (body : Bytes)
      → Holds w h cmd
      → IsAccounted w h (dispatch cfg pcfg answer w h format cmd uri uri_len t slash body)
  unfolding dispatch
  dispatch-IsAccounted w h format cmd uri uri_len t none body o =
      let at = attach-Holds w h cmd o in
      let (cmd', w') = attach cfg pcfg answer w h cmd in
      IsAccounted-trans w w' h (send_name cfg pcfg answer w' h format cmd') at.1
        (send_name-IsAccounted w' h format cmd' at.0)
  dispatch-IsAccounted w h format cmd uri uri_len t (some s) body o =
      let at = attach-Holds w h cmd o in
      let (cmd', w') = attach cfg pcfg answer w h cmd in
      let from = t.name_at + t.cmd_len + 1 in
      let argv =
        put_body body (fill_args (length uri) (drop from uri) (uri_len - from) 1 cmd'.argv) in
      let filled = record cmd' { argv = argv } in
      IsAccounted-trans w w' h (send_all cfg pcfg answer w' h format filled) at.1
        (send_all-IsAccounted w' h format filled at.0.attached at.0.last)

  pub run_judged-IsAccounted :
      (w : World) (h : ℕ) (format : Format) (cmd : Cmd) (uri : Bytes) (uri_len : ℕ) (t : Target)
      (slash : Option ℕ) (body : Bytes)
      → Holds w h cmd
      → IsAccounted w h (run_judged cfg pcfg answer w h format cmd uri uri_len t slash body)
  unfolding run_judged
  run_judged-IsAccounted w h format cmd uri uri_len t slash body o =
      elim (Bool-cases (acl_allow_command (take cmd.count cmd.argv) cfg w.client)) [
        | inl ok ↦
            rw (ok, run_judged) (dispatch-IsAccounted w h format cmd uri uri_len t slash body o)
        | inr refused ↦
            rw (refused, run_judged) (cmd_free-none w h cmd o, cmd_free-SparesOthers w h)
      ]
