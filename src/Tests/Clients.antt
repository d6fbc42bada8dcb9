-- ===== src/Tests/Clients.antt =====
-- Clients: src/client.c.
use webdis.Client.{http_client_on_query_string}
use webdis.Client.Headers.{Field, whole, fed, fed-headers}
use webdis.Client.Query.{Parameter, IsPlain, apply_all, http_client_on_query_string-query}
use webdis.Cmd.{Cmd, World, empty_cmd}
use webdis.Prelude.Text.{codes}
use webdis.Tests.Data.{local_client, world}
use webdis.Prelude.{◌≡◌, refl, false, none, some, List, [], ◌∷◌, ◌++◌, map, arith, All}

abbrev fields : List Field
fields =
    record {
      name = codes "Ho";
      more_name = codes "st" ∷ [];
      val = codes "local";
      more_val = codes "host" ∷ codes ":7379" ∷ [];
    }
    ∷ record { name = codes "Accept"; more_name = []; val = codes "*/*"; more_val = [] }
    ∷ []

fed-headers_example : (fed local_client fields).headers ≡ local_client.headers ++ map whole fields
fed-headers_example = fed-headers local_client fields refl

abbrev parameters : List Parameter
parameters =
    record { key = codes "type"; val = codes "text/plain" }
    ∷ record { key = codes "sep"; val = codes "=" }
    ∷ []

parameters-IsPlain : All IsPlain parameters
parameters-IsPlain = ground arith

http_client_on_query_string-query_example :
    http_client_on_query_string local_client (codes "type=text/plain&sep==")
    ≡ apply_all local_client parameters
http_client_on_query_string-query_example =
    http_client_on_query_string-query local_client parameters parameters-IsPlain

abbrev in_flight : World
in_flight = record world {
  client = record (world.client) { last_cmd = some 4 };
  cmds = λ h. some (empty_cmd 2);
}

abbrev left_behind : Cmd
left_behind = record (empty_cmd 2) { fd = none; http_client = false }
