-- ===== src/Conf/Rules.antt =====
-- The access rules that `conf_read` of src/conf.c takes from the whole file.
use webdis.Conf.{Libc, conf_parse_acls}
use webdis.Conf.Settings.{Value, json_array, Settings, Accounts, defaults, members, json, set_acl}
use webdis.Conf.Read.{read_member, read_members, conf_read}
use webdis.Prelude.Text.{Bytes, codes, strcmp_eq}
use webdis.State.{Acl}
use webdis.Prelude.{
  ◌≡◌, refl, ap, ◌∙◌, inl, inr, true, some, List, [], ◌∷◌, arith, if◌then◌else◌, Bool-cases,
}
use webdis.Conf.Keeps.{read_member-other}

-- `strcmp` is about the text up to the zero byte.
strcmp_eq-same : (k a b : Bytes) → strcmp_eq k a ≡ true → strcmp_eq k b ≡ strcmp_eq a b
unfolding strcmp_eq
strcmp_eq-same [] [] b same = refl
strcmp_eq-same [] (y ∷ a) [] same = ground arith
strcmp_eq-same [] (y ∷ a) (z ∷ b) same = ground arith
strcmp_eq-same (x ∷ k) [] [] same = ground arith
strcmp_eq-same (x ∷ k) [] (z ∷ b) same = ground arith
strcmp_eq-same (x ∷ k) (y ∷ a) [] same = ground arith
strcmp_eq-same (x ∷ k) (y ∷ a) (z ∷ b) same = ground (arith, strcmp_eq-same k a b)

module _ {J : Type 0} (view : J → Value J) (libc : Libc) (ids : Accounts) where
  -- The rules that a member of the file gives: an array under the key `acl`.
  unfoldable pub rules_of : Value J → List Acl → List Acl
  rules_of (json_array js) old = conf_parse_acls (json view libc ids) libc js
  rules_of v old = old

  unfoldable pub last_rules : List (Bytes × J) → List Acl → List Acl
  unfolding rules_of
  last_rules [] old = old
  last_rules ((key, j) ∷ ms) old =
      last_rules ms (if strcmp_eq key (codes "acl") then rules_of (view j) old else old)

  read_member-acl :
      (key : Bytes) (v : Value J) (c : Settings)
      → strcmp_eq key (codes "acl") ≡ true
      → read_member view libc ids key v c ≡ set_acl view libc ids v c
  unfolding read_member strcmp_eq
  read_member-acl key v c same = rw (
    strcmp_eq-same key (codes "acl") (codes "redis_host") same,
    strcmp_eq-same key (codes "acl") (codes "redis_port") same,
    strcmp_eq-same key (codes "acl") (codes "redis_auth") same,
    strcmp_eq-same key (codes "acl") (codes "http_host") same,
    strcmp_eq-same key (codes "acl") (codes "http_port") same,
    strcmp_eq-same key (codes "acl") (codes "http_max_request_size") same,
    strcmp_eq-same key (codes "acl") (codes "threads") same,
    same,
  )

  set_acl-rules_of :
      (v : Value J) (c : Settings) → (set_acl view libc ids v c).perms ≡ rules_of v c.perms
  unfolding set_acl rules_of
  set_acl-rules_of (json_array js) c = refl
  set_acl-rules_of v c = refl

  read_member-rules_of :
      (key : Bytes) (v : Value J) (c : Settings)
      → (read_member view libc ids key v c).perms
        ≡ (if strcmp_eq key (codes "acl") then rules_of v c.perms else c.perms)
  read_member-rules_of key v c = elim (Bool-cases (strcmp_eq key (codes "acl"))) [
    | inl same ↦
        ground (arith, ap (λ d. d.perms) (read_member-acl key v c same), set_acl-rules_of v c)
    | inr other ↦ ground (arith, read_member-other view libc ids key v c other)
  ]

  read_members-last_rules :
      (ms : List (Bytes × J)) (c : Settings)
      → (read_members view libc ids ms c).perms ≡ last_rules ms c.perms
  unfolding read_members last_rules
  read_members-last_rules [] c = refl
  read_members-last_rules ((key, j) ∷ ms) c =
      read_members-last_rules ms (read_member view libc ids key (view j) c)
      ∙ ap (last_rules ms) (read_member-rules_of key (view j) c)

  -- Whatever the other members of the configuration file are and in whichever order they come, the
  -- access rules of the settings are those of the last member `acl` that is an array, and there
  -- are none when there is no such member.
  pub conf_read-last_rules :
      (j : J)
      → (conf_read view libc ids (some j)).perms ≡ last_rules (members view libc ids (view j)) []
  unfolding conf_read defaults
  conf_read-last_rules j = read_members-last_rules (members view libc ids (view j)) (defaults ids)
