-- ===== src/Tests/ConfFile.antt =====
-- A configuration file for `conf_read` of src/conf.c.
use webdis.Conf.{Libc, conf_parse_acls}
use webdis.Conf.Settings.{
  Value, json_object, json_array, json_string, json_integer, Settings, Accounts, members,
}
use webdis.Conf.Read.{conf_read}
use webdis.Conf.Rules.{last_rules, conf_read-last_rules}
use webdis.Prelude.Int.{pos, negsuc}
use webdis.Prelude.Text.{codes, strcmp_eq}
use webdis.State.{Acl}
use webdis.Prelude.{◌≡◌, refl, false, none, some, [], ◌∷◌}

-- {"verbosity": 99, "acl": [{"disabled": ["DEBUG"]}], "redis_port": "$PORT",
--  "http_max_request_size": -1}
data Place : Type 0 where
  root level rules block commands command port size : Place

abbrev file : Place → Value Place
file root = json_object (
    (codes "verbosity", level)
    ∷ (codes "acl", rules)
    ∷ (codes "redis_port", port)
    ∷ (codes "http_max_request_size", size)
    ∷ [])
file level = json_integer (pos 99)
file rules = json_array (block ∷ [])
file block = json_object ((codes "disabled", commands) ∷ [])
file commands = json_array (command ∷ [])
file command = json_string (codes "DEBUG")
file port = json_string (codes "$PORT")
file size = json_integer (negsuc 0)

abbrev libc : Libc
libc = record {
  getenv = λ name. some (codes "8");
  atoi = λ s. pos 8;
  inet_addr = λ s. 0;
  base64_encode = λ s. s;
  shift_beyond = λ n. 0;
}

abbrev ids : Accounts
ids = record { uid = 5; gid = 6; user_of = λ s. none; group_of = λ s. none }

abbrev no_debug : Acl
no_debug = record {
  cidr_enabled = false;
  subnet = 0;
  mask = 0;
  http_basic_auth = none;
  enabled = [];
  disabled = codes "DEBUG" ∷ [];
}

settings : Settings
settings = conf_read file libc ids (some root)

read_rules : last_rules file libc ids (members file libc ids (file root)) [] ≡ no_debug ∷ []
unfolding last_rules strcmp_eq conf_parse_acls
read_rules = refl

conf_read-last_rules_example :
    (conf_read file libc ids (some root)).perms
    ≡ last_rules file libc ids (members file libc ids (file root)) []
conf_read-last_rules_example = conf_read-last_rules file libc ids root

-- The level of the log is cut to the highest, a port comes from the environment, and a negative
-- size is taken as a very large one.
others :
    (settings.verbosity ≡ 8)
    × (settings.redis_port ≡ pos 8)
    × (settings.http_max_request_size ≡ 18446744073709551615)
unfolding settings conf_read strcmp_eq
others = (refl, refl, refl)
