-- ===== src/Http/Send.antt =====
-- src/http.c: the responses that need no command. They are made without a worker, so that they
-- are written at once.
use webdis.Client.{http_client_reset}
use webdis.Http.{
  HttpResponse, Sending, header, http_response_init, http_response_set_body,
  http_response_set_keep_alive, http_response_write,
}
use webdis.Prelude.Text.{Bytes, codes}
use webdis.State.{HttpClient}
use webdis.Prelude.{ℕ, false, none, some, List, ◌++◌}

-- `http_response_init` with what every response to a client takes from it.
unfoldable pub client_response : HttpClient → ℕ → Bytes → HttpResponse
unfolding http_response_init http_response_set_keep_alive
client_response c code msg =
    http_response_set_keep_alive
      (record (http_response_init false code msg) { http_version = c.http_version }) c.keep_alive

unfoldable pub send_and_reset : HttpClient → HttpResponse → HttpClient × List Sending
unfolding http_response_write http_client_reset
send_and_reset c r = (http_client_reset c, http_response_write r (some (c.fd)))

abbrev pub cross_domain_policy : Bytes
cross_domain_policy =
    codes "<?xml version=\"1.0\"?>\n"
    ++ (codes
          "<!DOCTYPE cross-domain-policy SYSTEM \"http://www.macromedia.com/xml/dtds/cross-domain-policy.dtd\">\n"
        ++ (codes "<cross-domain-policy>\n"
            ++ (codes "<allow-access-from domain=\"*\" />\n" ++ codes "</cross-domain-policy>\n")))

unfoldable pub http_crossdomain : HttpClient → HttpClient × List Sending
unfolding client_response send_and_reset http_response_set_body
http_crossdomain c = send_and_reset c (
    http_response_set_body
      (header (codes "Content-Type") (codes "application/xml") (client_response c 200 (codes "OK")))
      (some cross_domain_policy))

unfoldable pub http_send_error : HttpClient → ℕ → Bytes → HttpClient × List Sending
unfolding client_response send_and_reset http_response_set_body
http_send_error c code msg =
    send_and_reset c (http_response_set_body (client_response c code msg) none)

unfoldable pub http_send_options : HttpClient → HttpClient × List Sending
unfolding client_response send_and_reset
http_send_options c = send_and_reset c (
    header (codes "Content-Length") (codes "0")
      (header (codes "Content-Type") (codes "text/html") (client_response c 200 (codes "OK"))))
