-- ===== src/Cmd/SameName.antt =====
-- The name of a command against the steps of `cmd_run` (src/cmd.c) that set its arguments.
use webdis.Acl.{acl_match_client, scan_commands, scan_perms, acl_allow_command}
use webdis.Cmd.Parse.{fill_args}
use webdis.Cmd.Run.{put_body}
use webdis.Cmd.Uri.{decode_uri}
use webdis.Prelude.Text.{Bytes, memchr}
use webdis.State.{Conf, HttpClient, Acl}
use webdis.Prelude.{
  ℕ, zero, suc, ◌+◌, ◌-◌, ◌<◌, ◌≡◌, refl, ◌∙◌, inl, inr, Bool, true, false, not, List, [], ◌∷◌,
  arith, ◌==◌, if◌then◌else◌, Bool-cases, Option-cases, set, take, drop,
}

-- Two argument lists with the same slots and the same first one.
abbrev SameName : List Bytes → List Bytes → Type 0
SameName [] [] = Unit
SameName [] (y ∷ ys) = ⊥
SameName (x ∷ xs) [] = ⊥
SameName (x ∷ xs) (y ∷ ys) = x ≡ y

SameName-refl : (xs : List Bytes) → SameName xs xs
SameName-refl [] = tt
SameName-refl (x ∷ xs) = refl

SameName-trans : (xs ys zs : List Bytes) → SameName xs ys → SameName ys zs → SameName xs zs
SameName-trans [] [] [] h k = tt
SameName-trans [] [] (z ∷ zs) h k = k
SameName-trans [] (y ∷ ys) zs h k = elim h [ ]
SameName-trans (x ∷ xs) [] zs h k = elim h [ ]
SameName-trans (x ∷ xs) (y ∷ ys) [] h k = k
SameName-trans (x ∷ xs) (y ∷ ys) (z ∷ zs) h k = h ∙ k

SameName-set : (xs : List Bytes) (k : ℕ) (v : Bytes) → 0 < k → SameName xs (set xs k v)
SameName-set [] k v h = tt
SameName-set (x ∷ xs) zero v h = absurd (omega arith)
SameName-set (x ∷ xs) (suc k) v h = refl

pub fill_args-SameName :
    (f : ℕ) (p : Bytes) (n cur : ℕ) (argv : List Bytes)
    → 0 < cur
    → SameName argv (fill_args f p n cur argv).1 × (0 < (fill_args f p n cur argv).0)
unfolding fill_args
fill_args-SameName zero p n cur argv h = (SameName-refl argv, h)
fill_args-SameName (suc f) p n cur argv h = elim (Bool-cases (n == 0)) [
  | inl z ↦ rw (z, fill_args) (SameName-refl argv, h)
  | inr z ↦ elim (Option-cases (memchr p b'/' n)) [
    | inl e ↦ rw (z, e, fill_args) (SameName-set argv cur (decode_uri p n true) h, omega arith)
    | inr (k, e) ↦
        let first = SameName-set argv cur (decode_uri p k true) h in
        let more =
          fill_args-SameName f (drop (k + 1) p) (n - (k + 1)) (cur + 1)
            (set argv cur (decode_uri p k true)) (omega arith) in
        rw (z, e, fill_args) (SameName-trans argv _ _ first more.0, more.1)
  ]
]

pub put_body-SameName :
    (body : Bytes) (argv : List Bytes) (r : ℕ × List Bytes)
    → SameName argv r.1
    → 0 < r.0
    → SameName argv (put_body body r)
unfolding put_body
put_body-SameName [] argv r h k = h
put_body-SameName (b ∷ body) argv r h k =
    SameName-trans argv r.1 _ h (SameName-set r.1 r.0 (b ∷ body) k)

-- The rules read the name of the command, and of the client its headers and its address.
acl_match_client-same :
    (a : Acl) (c d : HttpClient) (ip : ℕ)
    → c.headers ≡ d.headers
    → acl_match_client a c ip ≡ acl_match_client a d ip
unfolding acl_match_client
acl_match_client-same a c d ip h = rw h

pub scan_perms-same :
    (c d : HttpClient) (name : Bytes) (ip : ℕ) (v : Bool) (perms : List Acl)
    → c.headers ≡ d.headers
    → scan_perms c name ip v perms ≡ scan_perms d name ip v perms
unfolding scan_perms
scan_perms-same c d name ip v [] h = refl
scan_perms-same c d name ip v (a ∷ perms) h = rw (acl_match_client-same a c d ip h) (
    scan_perms-same c d name ip
      (if not (acl_match_client a d ip)
        then v
        else scan_commands name false (scan_commands name true v a.enabled) a.disabled)
      perms h)

pub acl_allow_command-same :
    (xs ys : List Bytes) (n : ℕ) (cfg : Conf) (c d : HttpClient)
    → SameName xs ys
    → c.headers ≡ d.headers
    → c.addr ≡ d.addr
    → acl_allow_command (take n xs) cfg c ≡ acl_allow_command (take n ys) cfg d
unfolding acl_allow_command
acl_allow_command-same xs ys zero cfg c d s h a = refl
acl_allow_command-same [] [] (suc n) cfg c d s h a = refl
acl_allow_command-same [] (y ∷ ys) (suc n) cfg c d s h a = elim s [ ]
acl_allow_command-same (x ∷ xs) [] (suc n) cfg c d s h a = elim s [ ]
acl_allow_command-same (x ∷ xs) (y ∷ ys) (suc n) cfg c d s h a =
    rw (s, a, scan_perms-same c d y d.addr true cfg.perms h)
