-- ===== src/Acl/Prefix.antt =====
-- The comparison of `acl_allow_command` is bounded by the length of the command's name.
use webdis.Prelude.{
  ℕ, ◌≡◌, refl, inl, inr, Bool, true, false, some, List, [], ◌∷◌, ◌++◌, map, arith, length, Any,
}
use webdis.Prelude.Text.{Bytes, to_lower, strncasecmp_eq}
use webdis.State.{Acl, Conf, HttpClient}
use webdis.Acl.{acl_match_client, entry_matches, is_always_off, always_off, acl_allow_command}
use webdis.Acl.Rules.{mentions, opinion, last_opinion, acl_allow_command-last_opinion}

-- A text compares equal to each of its prefixes, in any case, within the prefix's length.
pub strncasecmp_eq-prefix :
    (name rest other : Bytes)
    → map to_lower name ≡ map to_lower other
    → strncasecmp_eq (other ++ rest) name (length name) ≡ true
unfolding strncasecmp_eq
strncasecmp_eq-prefix [] rest other h = refl
strncasecmp_eq-prefix (x ∷ name) rest [] h = absurd (cc)
strncasecmp_eq-prefix (x ∷ name) rest (y ∷ other) h =
    ground (arith, strncasecmp_eq-prefix name rest other)

-- `name` is a prefix of `entry`, up to the case of letters.
pub record Abbreviates (name entry : Bytes) : Type 0 where
  pub other : Bytes
  pub rest : Bytes
  pub splits : entry ≡ other ++ rest
  pub same : map to_lower name ≡ map to_lower other

Abbreviates-strncasecmp_eq :
    (name entry : Bytes) → Abbreviates name entry → strncasecmp_eq entry name (length name) ≡ true
Abbreviates-strncasecmp_eq name entry a =
    rw a.splits (strncasecmp_eq-prefix name a.rest a.other a.same)

is_always_off-Abbreviates :
    (name : Bytes) (offs : List Bytes)
    → Any (Abbreviates name) offs
    → is_always_off name offs ≡ true
unfolding is_always_off
is_always_off-Abbreviates name [] h = elim h [ ]
is_always_off-Abbreviates name (off ∷ offs) (inl a) =
    ground (arith, Abbreviates-strncasecmp_eq name off a)
is_always_off-Abbreviates name (off ∷ offs) (inr h) =
    ground (arith, is_always_off-Abbreviates name offs h)

mentions-Abbreviates :
    (name : Bytes) (es : List Bytes) → Any (Abbreviates name) es → mentions name es ≡ true
unfolding entry_matches
mentions-Abbreviates name [] h = elim h [ ]
mentions-Abbreviates name (e ∷ es) (inl a) = ground (arith, Abbreviates-strncasecmp_eq name e a)
mentions-Abbreviates name (e ∷ es) (inr h) = ground (arith, mentions-Abbreviates name es h)

last_opinion-concat :
    (client : HttpClient) (name : Bytes) (ip : ℕ) (perms : List Acl) (a : Acl) (v : Bool)
    → acl_match_client a client ip ≡ true
    → opinion name a ≡ some v
    → last_opinion client name ip (perms ++ (a ∷ [])) ≡ some v
last_opinion-concat client name ip [] a v m o = ground arith
last_opinion-concat client name ip (b ∷ perms) a v m o =
    rw (last_opinion-concat client name ip perms a v m o)

-- MULTI, EXEC, WATCH, DISCARD and SELECT are refused to every client under every configuration,
-- in any case of letters, and so is every prefix of their names.
pub acl_allow_command-always_off :
    (name : Bytes) (args : List Bytes) (cfg : Conf) (client : HttpClient)
    → Any (Abbreviates name) always_off
    → acl_allow_command (name ∷ args) cfg client ≡ false
unfolding acl_allow_command
acl_allow_command-always_off name args cfg client h =
    rw (is_always_off-Abbreviates name always_off h)

-- A last block that is about the client refuses every command whose name is a prefix of an entry
-- of its `disabled` list, whatever the blocks before it and its own `enabled` list say.
pub acl_allow_command-disabled_prefix :
    (name : Bytes) (args : List Bytes) (cfg : Conf) (client : HttpClient) (before : List Acl)
    (a : Acl)
    → cfg.perms ≡ before ++ (a ∷ [])
    → acl_match_client a client client.addr ≡ true
    → Any (Abbreviates name) a.disabled
    → acl_allow_command (name ∷ args) cfg client ≡ false
acl_allow_command-disabled_prefix name args cfg client before a e m h = ground (
  arith,
  acl_allow_command-last_opinion name args cfg client,
  e,
  mentions-Abbreviates name a.disabled h,
  last_opinion-concat client name client.addr before a false m,
)
