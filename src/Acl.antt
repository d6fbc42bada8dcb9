-- ===== src/Acl.antt =====
-- src/acl.c: which clients a block of the configuration is about, and which commands they may run.
pub mod Rules
pub mod Prefix
use Prim.Native.Nat.{bit_and}
use webdis.Prelude.{
  ℕ, suc, ◌==◌, ◌||◌, ◌&&◌, not, Bool, true, false, Option, none, some, List, [], ◌∷◌,
  if◌then◌else◌, length, drop,
}
use webdis.Prelude.Text.{Bytes, codes, strncasecmp_eq, strcmp_eq}
use webdis.State.{Header, Acl, Conf, HttpClient}

-- The loop of `client_get_header` (src/client.c).
unfoldable pub find_header : Bytes → List Header → Option Bytes
find_header key [] = none
find_header key (h ∷ hs) =
    if (length key == length h.key) && strncasecmp_eq key h.key (length key)
    then h.val
    else find_header key hs

unfoldable pub client_get_header : HttpClient → Bytes → Option Bytes
client_get_header c key = find_header key c.headers

-- The test of the credentials. `auth + 6` is read only behind the prefix "Basic ".
unfoldable pub basic_auth_ok : Option Bytes → Option Bytes → Bool
basic_auth_ok none auth = true
basic_auth_ok (some expected) none = false
basic_auth_ok (some expected) (some auth) =
    strncasecmp_eq auth (codes "Basic ") 6 && strcmp_eq (drop 6 auth) expected

-- The test of the address.
unfoldable pub cidr_ok : Acl → ℕ → Bool
cidr_ok a ip = if not a.cidr_enabled then true else bit_and ip a.mask == bit_and a.subnet a.mask

unfoldable pub acl_match_client : Acl → HttpClient → ℕ → Bool
unfolding client_get_header basic_auth_ok cidr_ok
acl_match_client a client ip =
    if not (basic_auth_ok a.http_basic_auth (client_get_header client (codes "Authorization")))
    then false
    else cidr_ok a ip

abbrev pub always_off : List Bytes
always_off = codes "MULTI" ∷ codes "EXEC" ∷ codes "WATCH" ∷ codes "DISCARD" ∷ codes "SELECT" ∷ []

-- One entry of a list of commands against the name of the command.
unfoldable pub entry_matches : Bytes → Bytes → Bool
entry_matches name entry =
    strncasecmp_eq entry name (length name) || strncasecmp_eq entry (codes "*") 1

-- The first loop, which refuses by the same comparison without the wildcard.
unfoldable pub is_always_off : Bytes → List Bytes → Bool
is_always_off name [] = false
is_always_off name (off ∷ offs) =
    if strncasecmp_eq off name (length name) then true else is_always_off name offs

-- The loops over `enabled` and `disabled`, which set `authorized` to `value` at each match.
unfoldable pub scan_commands : Bytes → Bool → Bool → List Bytes → Bool
unfolding entry_matches
scan_commands name value authorized [] = authorized
scan_commands name value authorized (entry ∷ es) =
    scan_commands name value (if entry_matches name entry then value else authorized) es

-- The loop over the blocks.
unfoldable pub scan_perms : HttpClient → Bytes → ℕ → Bool → List Acl → Bool
unfolding scan_commands acl_match_client
scan_perms client name ip authorized [] = authorized
scan_perms client name ip authorized (a ∷ perms) =
    scan_perms client name ip
      (if not (acl_match_client a client ip)
        then authorized
        else scan_commands name false (scan_commands name true authorized a.enabled) a.disabled)
      perms

-- `ntohl` of the address is taken when the client is created: `addr` is in host order here.
-- `argv[0 .. count)` is the list; the name is its first element.
unfoldable pub acl_allow_command : List Bytes → Conf → HttpClient → Bool
unfolding is_always_off scan_perms
acl_allow_command [] cfg client = false
acl_allow_command (name ∷ args) cfg client =
    if is_always_off name always_off
    then false
    else scan_perms client name client.addr true cfg.perms
