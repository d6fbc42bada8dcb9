-- ===== src/Conf/Keeps.antt =====
-- The members of the configuration file that leave the access rules of src/conf.c alone.
use webdis.Conf.{Libc}
use webdis.Conf.Settings.{
  Value, json_object, json_array, json_string, json_integer, json_true, json_false, Settings,
  Accounts, set_redis_auth, set_max_request_size, set_log_fsync, set_verbosity,
}
use webdis.Conf.Read.{
  string, int, flag, set_ssl_enabled, set_keep_alive_sec, ssl_member, conf_parse_ssl,
  conf_parse_hiredis, set_ssl, set_hiredis, read_late_member, read_member,
}
use webdis.Prelude.Int.{ℤ}
use webdis.Prelude.Text.{Bytes, codes, strcmp_eq}
use webdis.Prelude.{◌≡◌, refl, ◌∙◌, Bool, false, some, List, [], ◌∷◌, arith}

-- The rules are as they were.
abbrev pub KeepsRules : Settings → Settings → Type 0
KeepsRules c d = d.perms ≡ c.perms

module _ {J : Type 0} (view : J → Value J) (libc : Libc) (ids : Accounts) where
  string-KeepsRules :
      (f : Bytes → Settings → Settings) (v : Value J) (c : Settings)
      → ((s : Bytes) → KeepsRules c (f s c))
      → KeepsRules c (string view libc ids f v c)
  string-KeepsRules f (json_string s) c h = h _
  string-KeepsRules f v c h = refl

  int-KeepsRules :
      (f : ℤ → Settings → Settings) (v : Value J) (c : Settings)
      → ((n : ℤ) → KeepsRules c (f n c))
      → KeepsRules c (int view libc ids f v c)
  int-KeepsRules f (json_integer n) c h = h _
  int-KeepsRules f (json_string s) c h = h _
  int-KeepsRules f v c h = refl

  flag-KeepsRules :
      (f : Bool → Settings → Settings) (v : Value J) (c : Settings)
      → ((b : Bool) → KeepsRules c (f b c))
      → KeepsRules c (flag view libc ids f v c)
  flag-KeepsRules f json_true c h = h _
  flag-KeepsRules f json_false c h = h _
  flag-KeepsRules f (json_string s) c h = h _
  flag-KeepsRules f v c h = refl

  set_redis_auth-KeepsRules :
      (v : Value J) (c : Settings) → KeepsRules c (set_redis_auth view libc ids v c)
  unfolding set_redis_auth
  set_redis_auth-KeepsRules (json_string s) c = refl
  set_redis_auth-KeepsRules v c = refl

  set_max_request_size-KeepsRules :
      (v : Value J) (c : Settings) → KeepsRules c (set_max_request_size view libc ids v c)
  unfolding set_max_request_size
  set_max_request_size-KeepsRules (json_string s) c = refl
  set_max_request_size-KeepsRules v c = refl

  set_log_fsync-KeepsRules :
      (v : Value J) (c : Settings) → KeepsRules c (set_log_fsync view libc ids v c)
  unfolding set_log_fsync
  set_log_fsync-KeepsRules (json_string s) c = ground arith
  set_log_fsync-KeepsRules (json_integer n) c = ground arith
  set_log_fsync-KeepsRules v c = refl

  set_verbosity-KeepsRules :
      (v : Value J) (c : Settings) → KeepsRules c (set_verbosity view libc ids v c)
  unfolding set_verbosity
  set_verbosity-KeepsRules (json_integer n) c = refl
  set_verbosity-KeepsRules v c = refl

  set_ssl_enabled-KeepsRules :
      (v : Value J) (c : Settings) → KeepsRules c (set_ssl_enabled view libc ids v c)
  unfolding set_ssl_enabled
  set_ssl_enabled-KeepsRules json_true c = refl
  set_ssl_enabled-KeepsRules v c = refl

  set_keep_alive_sec-KeepsRules :
      (v : Value J) (c : Settings) → KeepsRules c (set_keep_alive_sec view libc ids v c)
  unfolding set_keep_alive_sec
  set_keep_alive_sec-KeepsRules (json_integer n) c = refl
  set_keep_alive_sec-KeepsRules v c = refl

  ssl_member-KeepsRules :
      (key : Bytes) (v : Value J) (c : Settings) → KeepsRules c (ssl_member view libc ids key v c)
  unfolding ssl_member
  ssl_member-KeepsRules key v c = ground (
    arith,
    set_ssl_enabled-KeepsRules v c,
    string-KeepsRules (λ s c. record c { ca_cert_bundle = some s }) v c (λ s. refl),
    string-KeepsRules (λ s c. record c { path_to_certs = some s }) v c (λ s. refl),
    string-KeepsRules (λ s c. record c { client_cert_pem = some s }) v c (λ s. refl),
    string-KeepsRules (λ s c. record c { client_key_pem = some s }) v c (λ s. refl),
    string-KeepsRules (λ s c. record c { redis_sni = some s }) v c (λ s. refl),
  )

  conf_parse_ssl-KeepsRules :
      (ms : List (Bytes × J)) (c : Settings) → KeepsRules c (conf_parse_ssl view libc ids ms c)
  unfolding conf_parse_ssl
  conf_parse_ssl-KeepsRules [] c = refl
  conf_parse_ssl-KeepsRules ((key, j) ∷ ms) c =
      conf_parse_ssl-KeepsRules ms (ssl_member view libc ids key (view j) c)
      ∙ ssl_member-KeepsRules key (view j) c

  conf_parse_hiredis-KeepsRules :
      (ms : List (Bytes × J)) (c : Settings) → KeepsRules c (conf_parse_hiredis view libc ids ms c)
  unfolding conf_parse_hiredis
  conf_parse_hiredis-KeepsRules [] c = refl
  conf_parse_hiredis-KeepsRules ((key, j) ∷ ms) c =
      conf_parse_hiredis-KeepsRules ms _ ∙ ground (arith, set_keep_alive_sec-KeepsRules (view j) c)

  set_ssl-KeepsRules : (v : Value J) (c : Settings) → KeepsRules c (set_ssl view libc ids v c)
  unfolding set_ssl
  set_ssl-KeepsRules (json_object ms) c = conf_parse_ssl-KeepsRules ms c
  set_ssl-KeepsRules v c = refl

  set_hiredis-KeepsRules :
      (v : Value J) (c : Settings) → KeepsRules c (set_hiredis view libc ids v c)
  unfolding set_hiredis
  set_hiredis-KeepsRules (json_object ms) c = conf_parse_hiredis-KeepsRules ms c
  set_hiredis-KeepsRules v c = refl

  read_late_member-KeepsRules :
      (key : Bytes) (v : Value J) (c : Settings)
      → KeepsRules c (read_late_member view libc ids key v c)
  unfolding read_late_member
  read_late_member-KeepsRules key (json_object ms) c =
      ground
        (arith, set_ssl-KeepsRules (json_object ms) c, set_hiredis-KeepsRules (json_object ms) c)
  read_late_member-KeepsRules key (json_string s) c =
      ground (arith, set_log_fsync-KeepsRules (json_string s) c)
  read_late_member-KeepsRules key (json_integer n) c = ground (
    arith,
    set_log_fsync-KeepsRules (json_integer n) c,
    set_verbosity-KeepsRules (json_integer n) c,
  )
  read_late_member-KeepsRules key v c = ground arith

  -- No other setting touches the rules.
  pub read_member-other :
      (key : Bytes) (v : Value J) (c : Settings)
      → strcmp_eq key (codes "acl") ≡ false
      → KeepsRules c (read_member view libc ids key v c)
  unfolding read_member
  read_member-other key (json_array js) c other = ground (
    arith,
    set_redis_auth-KeepsRules (json_array js) c,
    read_late_member-KeepsRules key (json_array js) c,
  )
  read_member-other key (json_string s) c other = ground (
    arith,
    set_redis_auth-KeepsRules (json_string s) c,
    set_max_request_size-KeepsRules (json_string s) c,
    read_late_member-KeepsRules key (json_string s) c,
  )
  read_member-other key (json_integer n) c other = ground (
    arith,
    set_max_request_size-KeepsRules (json_integer n) c,
    read_late_member-KeepsRules key (json_integer n) c,
  )
  read_member-other key v c other = ground (arith, read_late_member-KeepsRules key v c)
