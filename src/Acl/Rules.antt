-- ===== src/Acl/Rules.antt =====
-- What the loops of `acl_allow_command` decide: the last block with an opinion on the command.
use webdis.Prelude.{
  ℕ, ◌≡◌, refl, Bool, true, false, not, ◌||◌, Option, none, some, List, [], ◌∷◌, arith,
  if◌then◌else◌,
}
use webdis.Prelude.Text.{Bytes}
use webdis.State.{Acl, Conf, HttpClient}
use webdis.Acl.{
  acl_match_client, entry_matches, is_always_off, always_off, scan_commands, scan_perms,
  acl_allow_command,
}

abbrev pub mentions : Bytes → List Bytes → Bool
mentions name [] = false
mentions name (e ∷ es) = entry_matches name e || mentions name es

-- A block's own verdict: refusal beats permission, and a block may be silent.
abbrev pub opinion : Bytes → Acl → Option Bool
opinion name a =
    if mentions name a.disabled
    then some false
    else if mentions name a.enabled
    then some true
    else none

-- The verdict of the last block that is about the client and has one.
abbrev pub last_opinion : HttpClient → Bytes → ℕ → List Acl → Option Bool
last_opinion client name ip [] = none
last_opinion client name ip (a ∷ perms) = elim (last_opinion client name ip perms) [
  | some v ↦ some v
  | none ↦ if acl_match_client a client ip then opinion name a else none
]

abbrev pub or_allowed : Bool → Option Bool → Bool
or_allowed d none = d
or_allowed d (some v) = v

pub scan_commands-mentions :
    (name : Bytes) (value authorized : Bool) (es : List Bytes)
    → scan_commands name value authorized es ≡ (if mentions name es then value else authorized)
unfolding scan_commands
scan_commands-mentions name value authorized [] = refl
scan_commands-mentions name value authorized (e ∷ es) = ground (
  arith,
  scan_commands-mentions name value (if entry_matches name e then value else authorized) es,
)

scan_perms-last_opinion :
    (client : HttpClient) (name : Bytes) (ip : ℕ) (authorized : Bool) (perms : List Acl)
    → scan_perms client name ip authorized perms
      ≡ or_allowed authorized (last_opinion client name ip perms)
unfolding scan_perms
scan_perms-last_opinion client name ip authorized [] = refl
scan_perms-last_opinion client name ip authorized (a ∷ perms) = ground (
  arith,
  scan_commands-mentions name true authorized a.enabled,
  scan_commands-mentions name false (scan_commands name true authorized a.enabled) a.disabled,
  scan_perms-last_opinion client name ip
      (if not (acl_match_client a client ip)
        then authorized
        else scan_commands name false (scan_commands name true authorized a.enabled) a.disabled)
      perms,
)

-- A command that is not always off is allowed exactly when the last block that is about the
-- client and mentions the command allows it, where a mention in `disabled` beats one in `enabled`
-- of the same block; with no such block it is allowed.
pub acl_allow_command-last_opinion :
    (name : Bytes) (args : List Bytes) (cfg : Conf) (client : HttpClient)
    → acl_allow_command (name ∷ args) cfg client ≡ (
        if is_always_off name always_off
        then false
        else or_allowed true (last_opinion client name client.addr cfg.perms))
unfolding acl_allow_command
acl_allow_command-last_opinion name args cfg client =
    ground (arith, scan_perms-last_opinion client name client.addr true cfg.perms)
