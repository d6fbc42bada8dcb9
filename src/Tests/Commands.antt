-- ===== src/Tests/Commands.antt =====
-- Requests: src/cmd.c and src/acl.c.
use webdis.Acl.{find_header, acl_allow_command, acl_match_client, is_always_off, always_off}
use webdis.Acl.Prefix.{Abbreviates, acl_allow_command-always_off, acl_allow_command-disabled_prefix}
use webdis.Acl.Rules.{last_opinion, or_allowed, acl_allow_command-last_opinion}
use webdis.Cmd.{World, cmd_new, cmd_is_subscribe}
use webdis.Cmd.Transfer.{cmd_setup}
use webdis.Pool.{pool_connect}
use webdis.Cmd.Extension.{cmd_select_format}
use webdis.Cmd.Parse.{locate, fill_args}
use webdis.Cmd.Request.{Argument, path, fill_args-path}
use webdis.Cmd.Run.{cmd_run}
use webdis.Cmd.Safety.{SendsAtMost, Allowed, cmd_run-sends}
use webdis.Cmd.Uri.{Encodes, done, plain, plus, escape, decode_uri, decode_uri-Encodes}
use webdis.Prelude.Text.{
  Bytes, codes, to_lower, memchr, strncmp_eq, strcmp_eq, strcasecmp_eq, strncasecmp_eq,
}
use webdis.Tests.Data.{
  debug_off, debug_on, getset_off, conf, local_client, pool_conf, accepted, world,
}
use webdis.Prelude.{
  ◌≡◌, refl, inl, inr, true, false, List, [], ◌∷◌, ◌++◌, map, arith, if◌then◌else◌, length,
  replicate,
}

abbrev set_uri : Bytes
set_uri = codes "3/SET/my%20key/a+b.txt?x=1"

abbrev argv_sent : World → List (List Bytes)
argv_sent w = map (λ m. m.argv) w.sent

set_sent :
    argv_sent (cmd_run (conf []) pool_conf (accepted 9) world set_uri []).1
    ≡ (codes "SET" ∷ codes "my key" ∷ codes "a b" ∷ []) ∷ []
unfolding cmd_run memchr acl_allow_command locate cmd_select_format strncmp_eq cmd_setup cmd_new
    strcasecmp_eq strncasecmp_eq cmd_is_subscribe fill_args pool_connect
set_sent = refl

cmd_run-sends_example :
    SendsAtMost
      (Allowed (conf (debug_off ∷ [])) local_client)
      world
      (cmd_run (conf (debug_off ∷ [])) pool_conf (accepted 9) world set_uri []).1
cmd_run-sends_example =
    cmd_run-sends (conf (debug_off ∷ [])) pool_conf (accepted 9) world set_uri []

encoded : Encodes (codes "a%2F+") (codes "a/ ")
encoded =
    plain b'a' (λ e. absurd (omega arith)) (λ e. absurd (omega arith))
      (escape b'/' b'2' b'F' (omega arith) (inl refl) (inr refl) (plus done))

argument_read :
    decode_uri (codes "a%2F+" ++ codes "/next") (length (codes "a%2F+")) true ≡ codes "a/ "
argument_read = decode_uri-Encodes (codes "/next") encoded

abbrev arguments : List Argument
arguments =
    record { text = codes "a%2F+"; bytes = codes "a/ "; encodes = encoded; no_slash = refl }
    ∷ record { text = []; bytes = []; encodes = done; no_slash = refl }
    ∷ record { text = codes "+"; bytes = codes " "; encodes = plus done; no_slash = refl }
    ∷ []

arguments_read :
    fill_args 9
      (path arguments ++ codes ".txt?x=1")
      (length (path arguments))
      1
      (codes "LPUSH" ∷ replicate 3 [])
    ≡ (4, codes "LPUSH" ∷ codes "a/ " ∷ [] ∷ codes " " ∷ [])
arguments_read =
    fill_args-path 9 (codes "LPUSH") arguments (codes ".txt?x=1") (omega arith) (omega arith)

debug_allowed :
    acl_allow_command (codes "debug" ∷ []) (conf (debug_off ∷ debug_on ∷ [])) local_client ≡ true
unfolding acl_allow_command strncasecmp_eq find_header strcmp_eq
debug_allowed = refl

acl_allow_command-last_opinion_example :
    acl_allow_command (codes "debug" ∷ []) (conf (debug_off ∷ debug_on ∷ [])) local_client ≡ (
      if is_always_off (codes "debug") always_off
      then false
      else or_allowed true
          (last_opinion local_client (codes "debug") local_client.addr (debug_off ∷ debug_on ∷ [])))
acl_allow_command-last_opinion_example =
    acl_allow_command-last_opinion (codes "debug") [] (conf (debug_off ∷ debug_on ∷ []))
      local_client

multi : Abbreviates (codes "multi") (codes "MULTI")
multi = record { other = codes "MULTI"; rest = []; splits = refl; same = unfold to_lower in refl }

acl_allow_command-always_off_example :
    acl_allow_command (codes "multi" ∷ []) (conf (debug_off ∷ debug_on ∷ [])) local_client ≡ false
acl_allow_command-always_off_example =
    acl_allow_command-always_off (codes "multi") [] (conf (debug_off ∷ debug_on ∷ [])) local_client
      (inl multi)

get_of_getset : Abbreviates (codes "get") (codes "GETSET")
get_of_getset = record {
  other = codes "GET";
  rest = codes "SET";
  splits = refl;
  same = unfold to_lower in refl;
}

getset_matches : acl_match_client getset_off local_client local_client.addr ≡ true
unfolding acl_match_client
getset_matches = refl

acl_allow_command-disabled_prefix_example :
    acl_allow_command
      (codes "get" ∷ codes "key" ∷ [])
      (conf (debug_off ∷ getset_off ∷ []))
      local_client
    ≡ false
acl_allow_command-disabled_prefix_example =
    acl_allow_command-disabled_prefix (codes "get") (codes "key" ∷ [])
      (conf (debug_off ∷ getset_off ∷ [])) local_client (debug_off ∷ []) getset_off refl
      getset_matches (inl get_of_getset)
