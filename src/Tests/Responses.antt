-- ===== src/Tests/Responses.antt =====
-- Responses: src/http.c, src/formats/common.c and src/worker.c.
use webdis.Cmd.{Cmd, empty_cmd, cmd_is_subscribe, cmd_free}
use webdis.Formats.Answer.{format_send_reply-promised}
use webdis.Formats.Promise.{answer_of, promised}
use webdis.Formats.Send.{Effect, etag_new, format_send_reply}
use webdis.Http.{
  HttpResponse, Sending, header, http_response_init, http_response_set_body,
  http_response_set_keep_alive, format_chunk, format_response, find_dupe,
}
use webdis.Http.Chunk.{read_chunk-format_chunk}
use webdis.Http.Delivery.{WriteResult, Outcome, Kernel, deliver, IsHonest, IsReady, IsInOrder}
use webdis.Http.Order.{deliver-IsInOrder, deliver-sends_all}
use webdis.Http.Length.{IsPlain, message_of}
use webdis.Http.Reader.{Message, read_chunk, read_message, lookup_field}
use webdis.Http.Written.{read_message-format_response}
use webdis.Prelude.Digits.{decimal, hexadecimal}
use webdis.Prelude.Text.{Bytes, codes, strncmp_eq, strcmp_eq, strcasecmp_eq}
use webdis.Tests.Data.{conf, debug_off, pool_conf, accepted, world}
use webdis.Worker.{http_other, worker_process_client}
use webdis.Worker.Answers.{expected, IsExpected, worker_process_client-IsExpected}
use webdis.Prelude.{
  ℕ, zero, suc, min, ◌≡◌, refl, ap, inl, true, false, some, List, [], ◌∷◌, ◌++◌, arith, length,
  replicate,
}

hello : HttpResponse
unfolding http_response_init http_response_set_body http_response_set_keep_alive
hello =
    http_response_set_keep_alive
      (http_response_set_body
        (header (codes "Content-Type") (codes "text/plain")
          (http_response_init true 200 (codes "OK")))
        (some (codes "hello")))
      true

hello-IsPlain : IsPlain hello
unfolding hello find_dupe lookup_field strncmp_eq strcmp_eq strcasecmp_eq
hello-IsPlain = record {
  code_ge = omega arith;
  code_lt = omega arith;
  one_line = refl;
  fields = refl;
  whole = refl;
  no_length = refl;
  no_length_field = refl;
  announced = inl refl;
  size = omega arith;
}

read_message-format_response_example :
    read_message ((format_response hello).out ++ codes "HTTP")
    ≡ some (message_of hello, codes "HTTP")
read_message-format_response_example =
    read_message-format_response hello (codes "HTTP") hello-IsPlain

hello_bytes :
    (format_response hello).out
    ≡ codes "HTTP/1.0 200 OK\r\nServer: Webdis\r\nAllow: GET,POST,PUT,OPTIONS\r\n"
      ++ (codes "Access-Control-Allow-Methods: GET,POST,PUT,OPTIONS\r\n"
          ++ (codes "Access-Control-Allow-Origin: *\r\n"
              ++ (codes
                    "Access-Control-Allow-Headers: X-Requested-With, Content-Type, Authorization\r\n"
                  ++ (codes "Content-Type: text/plain\r\nConnection: Keep-Alive\r\n"
                      ++ codes "Content-Length: 5\r\n\r\nhello"))))
unfolding hello format_response strncmp_eq strcmp_eq decimal
hello_bytes = refl

chunk_bytes : format_chunk (codes "hello webdis 1234") ≡ codes "11\r\nhello webdis 1234\r\n"
unfolding format_chunk hexadecimal
chunk_bytes = refl

read_chunk-format_chunk_example :
    read_chunk (format_chunk (codes "hello") ++ codes "0\r\n") ≡ some (codes "hello", codes "0\r\n")
read_chunk-format_chunk_example =
    read_chunk-format_chunk (codes "hello") (codes "0\r\n") (omega arith) (omega arith)

-- A kernel that takes four bytes at most.
abbrev four_at_once : Kernel
four_at_once i n = WriteResult.wrote (min 4 n)

-- A kernel that takes two bytes, and fails then.
abbrev fails_later : Kernel
fails_later zero n = WriteResult.wrote (min 2 n)
fails_later (suc i) n = WriteResult.failed

is_wrote : WriteResult → ℕ
is_wrote WriteResult.failed = 0
is_wrote (WriteResult.wrote n) = n

fails_later-IsHonest : IsHonest fails_later
unfolding is_wrote
fails_later-IsHonest zero n m e = omega (arith, ap is_wrote e)
fails_later-IsHonest (suc i) n m e = omega (arith, ap is_wrote e)

four_at_once-IsReady : IsReady four_at_once
four_at_once-IsReady i n h = (min 4 n, omega arith, omega arith, refl)

buffer : HttpResponse
unfolding hello
buffer = record hello { out = codes "0123456789"; sent = 0 }

deliver-IsInOrder_example : IsInOrder buffer 7 (deliver fails_later 9 0 7 buffer)
unfolding buffer
deliver-IsInOrder_example =
    deliver-IsInOrder fails_later fails_later-IsHonest 9 0 7 buffer (omega arith) (omega arith)

failed_delivery : deliver fails_later 9 0 7 buffer ≡ (codes "01", Outcome.cleaned false true)
unfolding buffer deliver
failed_delivery = refl

deliver-sends_all_example :
    deliver four_at_once 10 0 7 buffer ≡ (codes "0123456789", Outcome.cleaned true false)
unfolding buffer
deliver-sends_all_example =
    deliver-sends_all four_at_once four_at_once-IsReady 10 0 7 buffer (omega arith) (omega arith)
      (omega arith)

-- A digest of sixteen bytes.
abbrev digest : Bytes → List ℕ
digest p = replicate 16 (length p)

get : Cmd
unfolding empty_cmd
get = record (empty_cmd 2) { argv = codes "GET" ∷ codes "k" ∷ []; fd = some 7 }

get_plain : cmd_is_subscribe get ≡ false
unfolding get cmd_is_subscribe
get_plain = refl

format_send_reply-promised_example :
    (sending : Sending) × (m : Message) × (format_send_reply digest
        (conf [])
        world
        0
        get
        (codes "{}")
        (codes "application/json")
      ≡ (cmd_free (conf []) world 0, Effect.http sending ∷ []))
    × (sending.fd ≡ 7)
    × (read_message (sending.response.out ++ codes "x") ≡ some (m, codes "x"))
    × (answer_of m ≡ promised digest get (codes "{}") (codes "application/json"))
unfolding get
format_send_reply-promised_example =
    format_send_reply-promised digest (conf []) world 0 7 get (codes "{}")
      (codes "application/json") (codes "x") refl get_plain refl refl refl (omega arith)

etag_bytes : etag_new digest (codes "{}") ≡ codes "\"02020202020202020202020202020202\""
unfolding etag_new
etag_bytes = refl

worker_process_client-IsExpected_example :
    IsExpected
      (expected (conf (debug_off ∷ [])) pool_conf (accepted 9) http_other world)
      world
      []
      (worker_process_client (conf (debug_off ∷ [])) pool_conf (accepted 9) http_other world)
worker_process_client-IsExpected_example =
    worker_process_client-IsExpected (conf (debug_off ∷ [])) pool_conf (accepted 9) http_other world
      []
