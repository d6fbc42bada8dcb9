-- ===== src/Conf.antt =====
-- src/conf.c: the access rules, from their JSON. What the program calls of jansson, getenv, atoi,
-- inet_addr and the base64 encoder is a parameter.
pub mod Bits
pub mod Cidr
pub mod Settings
pub mod Read
pub mod Keeps
pub mod Rules
use Prim.Native.Nat.{bit_and}
use webdis.Prelude.Int.{ℤ, pos, negsuc}
use webdis.Prelude.Text.{Bytes, codes, memchr}
use webdis.State.{Acl}
use webdis.Prelude.{
  ℕ, zero, suc, ◌+◌, ◌-◌, ◌*◌, ◌/◌, ◌%◌, ◌^◌, ◌≤◌, ◌<◌, min, ◌≡◌, refl, sym, ap, ◌∙◌, ◌≢◌, ◌↔◌, ◌⊎◌,
  inl, inr, Bool, true, false, not, ◌&&◌, ◌||◌, Option, none, some, List, [], ◌∷◌, ◌++◌, map,
  append-nil, append_assoc, arith, ltb, leb, ◌==◌, ◌>>=◌, if◌then◌else◌, ==_iff, ltb→lt, lt→ltb,
  leb→le, Bool-cases, Option-cases, length, get_elem?, set, length-append, length-set,
  get_elem?-set_self, get_elem?-set_ne, get_or, take, drop, take-append, drop-append, replicate,
  take-append-drop, length-take, length-drop, length-replicate, length-map, All, Any,
}

-- `json_object_get`, and what is inside a value of type JSON_STRING or JSON_ARRAY.
pub record Json (J : Type 0) : Type 0 where
  pub object_get : J → Bytes → Option J
  pub string_value : J → Option Bytes
  pub array_values : J → Option (List J)

-- `inet_addr` is taken with `ntohl`. `shift_beyond` is what the compiler makes of a shift by a
-- negative number of bits.
pub record Libc : Type 0 where
  pub getenv : Bytes → Option Bytes
  pub atoi : Bytes → ℤ
  pub inet_addr : Bytes → ℕ
  pub base64_encode : Bytes → Bytes
  pub shift_beyond : ℕ → ℕ

-- `s[i] == toupper(s[i])` for each byte.
unfoldable pub conf_str_allcaps : Bytes → Bool
conf_str_allcaps [] = true
conf_str_allcaps (c ∷ s) = not (leb b'a' c && leb c b'z') && conf_str_allcaps s

-- The cast to `unsigned short`.
abbrev pub to_ushort : ℤ → ℕ
to_ushort (pos n) = n % 2 ^ 16
to_ushort (negsuc n) = 2 ^ 16 - 1 - n % 2 ^ 16

module _ {J : Type 0} (json : Json J) (libc : Libc) where
  abbrev pub env_or : Bytes → Option Bytes → Bytes
  env_or val none = val
  env_or val (some v) = v

  unfoldable pub conf_string_or_envvar : Option Bytes → Bytes
  unfolding conf_str_allcaps
  conf_string_or_envvar none = []
  conf_string_or_envvar (some []) = []
  conf_string_or_envvar (some (c ∷ name)) =
      if leb 1 (length name) && (c == b'$') && conf_str_allcaps name
      then env_or (c ∷ name) (libc.getenv name)
      else c ∷ name

  unfoldable pub acl_read_commands : List J → List Bytes
  unfolding conf_string_or_envvar
  acl_read_commands [] = []
  acl_read_commands (j ∷ js) =
      let rest = acl_read_commands js in
      elim (json.string_value j) [ none ↦ rest | some s ↦ conf_string_or_envvar (some s) ∷ rest ]

  -- `0xffffffff << (32 - mask_bits)` on 32 bits.
  abbrev pub mask_of : ℕ → ℕ
  mask_of bits =
      if bits == 0
      then 2 ^ 32 - 1
      else if leb bits 32
      then (2 ^ 32 - 1) * 2 ^ (32 - bits) % 2 ^ 32
      else libc.shift_beyond bits

  -- The address and the number of bits behind the slash, if there is one.
  unfoldable pub cidr_parts : Bytes → Bytes × ℕ
  unfolding memchr
  cidr_parts s = elim (memchr s b'/' (length s)) [
    | none ↦ (s, 0)
    | some i ↦ (take i s, to_ushort (libc.atoi (drop (i + 1) s)))
  ]

  abbrev pub empty_acl : Acl
  empty_acl = record {
    cidr_enabled = false;
    subnet = 0;
    mask = 0;
    http_basic_auth = none;
    enabled = [];
    disabled = [];
  }

  unfoldable pub set_cidr : Acl → Bytes → Acl
  unfolding cidr_parts
  set_cidr a s =
      let (ip, bits) = cidr_parts s in
      record a {
        cidr_enabled = true;
        mask = mask_of bits;
        subnet = bit_and (libc.inet_addr ip) (mask_of bits);
      }

  -- A member of the object, if it is a string, or an array.
  abbrev pub string_member : J → Bytes → Option Bytes
  string_member j k = do v ← json.object_get j k; json.string_value v

  abbrev pub array_member : J → Bytes → Option (List J)
  array_member j k = do v ← json.object_get j k; json.array_values v

  unfoldable pub with_cidr : Option Bytes → Acl → Acl
  unfolding conf_string_or_envvar set_cidr
  with_cidr none a = a
  with_cidr (some s) a = set_cidr a (conf_string_or_envvar (some s))

  unfoldable pub auth_of : Option Bytes → Option Bytes
  unfolding conf_string_or_envvar
  auth_of none = none
  auth_of (some s) = some (libc.base64_encode (conf_string_or_envvar (some s)))

  unfoldable pub commands_of : Option (List J) → List Bytes
  unfolding acl_read_commands
  commands_of none = []
  commands_of (some js) = acl_read_commands js

  -- Credentials that cannot be encoded end the program; that exit is left out.
  unfoldable pub conf_parse_acl : J → Acl
  unfolding with_cidr auth_of commands_of
  conf_parse_acl j = record (with_cidr (string_member j (codes "ip")) empty_acl) {
    http_basic_auth = auth_of (string_member j (codes "http_basic_auth"));
    enabled = commands_of (array_member j (codes "enabled"));
    disabled = commands_of (array_member j (codes "disabled"));
  }

  unfoldable pub conf_parse_acls : List J → List Acl
  unfolding conf_parse_acl
  conf_parse_acls [] = []
  conf_parse_acls (j ∷ js) = conf_parse_acl j ∷ conf_parse_acls js
