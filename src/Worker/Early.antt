-- ===== src/Worker/Early.antt =====
-- The callbacks of the HTTP parser before the end of a message: src/client.c.
use webdis.Client.{
  http_client_on_url, http_client_on_query_string, http_client_on_header_name,
  http_client_on_header_value, http_client_add_to_body, query_from, apply_parameter,
}
use webdis.Cmd.{World}
use webdis.Pool.{PoolConf, Connecting}
use webdis.Prelude.Text.{Bytes, memchr}
use webdis.State.{Conf, HttpClient}
use webdis.Worker.Reading.{
  Callback, on_url, on_query_string, on_header_field, on_header_value, on_body, on_message_complete,
  Output, run_callback, run_callbacks,
}
use webdis.Prelude.{
  ℕ, zero, suc, ◌+◌, ◌≡◌, refl, sym, ap, ◌∙◌, inl, inr, List, [], ◌∷◌, ◌++◌, append-nil,
  append_assoc, arith, Option-cases, length, take, drop,
}

-- The bytes of the URL.
abbrev pub url_of : List Callback → Bytes
url_of [] = []
url_of (on_url s ∷ ks) = s ++ url_of ks
url_of (_ ∷ ks) = url_of ks

-- None is the end of a message.
abbrev pub Early : List Callback → Type 0
Early [] = Unit
Early (on_message_complete m p ∷ ks) = ⊥
Early (_ ∷ ks) = Early ks

-- The same path, descriptor and protocol.
abbrev Keeps : HttpClient → HttpClient → Type 0
Keeps c d = (d.path ≡ c.path) × (d.fd ≡ c.fd) × (d.is_websocket ≡ c.is_websocket)

Keeps-trans : (a b c : HttpClient) → Keeps a b → Keeps b c → Keeps a c
Keeps-trans a b c (p, f, h) (p', f', h') = (p' ∙ p, f' ∙ f, h' ∙ h)

apply_parameter-Keeps : (c : HttpClient) (key val : Bytes) → Keeps c (apply_parameter c key val)
unfolding apply_parameter
apply_parameter-Keeps c key val = (ground arith, ground arith, ground arith)

query_from-Keeps : (f : ℕ) (c : HttpClient) (p : Bytes) → Keeps c (query_from f c p)
unfolding query_from
query_from-Keeps zero c p = (refl, refl, refl)
query_from-Keeps (suc f) c p = elim (Option-cases (memchr p b'=' (length p))) [
  | inl e ↦ rw (e, query_from) (refl, refl, refl)
  | inr (eq, e) ↦
      let key = take eq p in
      let rest = drop (eq + 1) p in
      elim (Option-cases (memchr rest b'&' (length rest))) [
        | inl e' ↦ rw (e, query_from, e') (apply_parameter-Keeps c key rest)
        | inr (amp, e') ↦
            let c1 = apply_parameter c key (take amp rest) in
            rw (e, query_from, e')
              (Keeps-trans c c1 (query_from f c1 (drop (amp + 1) rest))
                (apply_parameter-Keeps c key (take amp rest))
                (query_from-Keeps f c1 (drop (amp + 1) rest)))
      ]
]

query_string-Keeps : (c : HttpClient) (s : Bytes) → Keeps c (http_client_on_query_string c s)
unfolding http_client_on_query_string
query_string-Keeps c s = query_from-Keeps (length s) c s

header_name-Keeps : (c : HttpClient) (s : Bytes) → Keeps c (http_client_on_header_name c s)
unfolding http_client_on_header_name
header_name-Keeps c s = (ground arith, ground arith, ground arith)

header_value-Keeps : (c : HttpClient) (s : Bytes) → Keeps c (http_client_on_header_value c s).0
unfolding http_client_on_header_value
header_value-Keeps c s = (ground arith, ground arith, ground arith)

body-Keeps : (c : HttpClient) (s : Bytes) → Keeps c (http_client_add_to_body c s)
unfolding http_client_add_to_body
body-Keeps c s = (ground arith, ground arith, ground arith)

module _ (cfg : Conf) (pcfg : PoolConf) (answer : Connecting) where
  pub run_callbacks-append :
      (ks ls : List Callback) (w : World)
      → run_callbacks cfg pcfg answer (ks ++ ls) w ≡ (
          let (w1, out1) = run_callbacks cfg pcfg answer ks w in
          let (w2, out2) = run_callbacks cfg pcfg answer ls w1 in (w2, out1 ++ out2))
  unfolding run_callbacks
  run_callbacks-append [] ls w = refl
  run_callbacks-append (k ∷ ks) ls w =
      let (w1, out1) = run_callback cfg pcfg answer k w in
      let (w2, out2) = run_callbacks cfg pcfg answer ks w1 in
      let (w3, out3) = run_callbacks cfg pcfg answer ls w2 in
      ap (λ (r : World × List Output). (r.0, out1 ++ r.1)) (run_callbacks-append ks ls w1)
      ∙ ap (λ out. (w3, out)) (sym (append_assoc out1 out2 out3))

  -- What the callbacks leave of the client: its path, with the URL behind it.
  abbrev Kept : Bytes → HttpClient → HttpClient → Type 0
  Kept url c d = (d.path ≡ c.path ++ url) × (d.fd ≡ c.fd) × (d.is_websocket ≡ c.is_websocket)

  Kept-after :
      (ks : List Callback) (w : World) (c : HttpClient)
      → Keeps w.client c
      → let d = (run_callbacks cfg pcfg answer ks (record w { client = c })).0.client in
        Kept (url_of ks) c d → Kept (url_of ks) w.client d
  Kept-after ks w c (p, f, h) (p', f', h') = (p' ∙ ap (λ t. t ++ url_of ks) p, f' ∙ f, h' ∙ h)

  pub Early-Kept :
      (ks : List Callback) (w : World)
      → Early ks
      → Kept (url_of ks) w.client (run_callbacks cfg pcfg answer ks w).0.client
  unfolding run_callbacks run_callback http_client_on_url
  Early-Kept [] w h = (sym (append-nil w.client.path), refl, refl)
  Early-Kept (on_url s ∷ ks) w h =
      let c = http_client_on_url w.client s in
      let (p, f, k) = Early-Kept ks (record w { client = c }) h in
      (p ∙ append_assoc w.client.path s (url_of ks), f, k)
  Early-Kept (on_query_string s ∷ ks) w h =
      let c = http_client_on_query_string w.client s in
      Kept-after ks w c (query_string-Keeps w.client s) (Early-Kept ks (record w { client = c }) h)
  Early-Kept (on_header_field s ∷ ks) w h =
      let c = http_client_on_header_name w.client s in
      Kept-after ks w c (header_name-Keeps w.client s) (Early-Kept ks (record w { client = c }) h)
  Early-Kept (on_header_value s ∷ ks) w h =
      let c = (http_client_on_header_value w.client s).0 in
      Kept-after ks w c (header_value-Keeps w.client s) (Early-Kept ks (record w { client = c }) h)
  Early-Kept (on_body s ∷ ks) w h =
      let c = http_client_add_to_body w.client s in
      Kept-after ks w c (body-Keeps w.client s) (Early-Kept ks (record w { client = c }) h)
  Early-Kept (on_message_complete m p ∷ ks) w h = absurd h

  -- They change the client alone: nothing is sent to Redis, and no connection is taken.
  pub Early-client :
      (ks : List Callback) (w : World)
      → Early ks
      → let w' = (run_callbacks cfg pcfg answer ks w).0 in w' ≡ record w { client = w'.client }
  unfolding run_callbacks run_callback
  Early-client [] w h = refl
  Early-client (on_url s ∷ ks) w h =
      Early-client ks (record w { client = http_client_on_url w.client s }) h
  Early-client (on_query_string s ∷ ks) w h =
      Early-client ks (record w { client = http_client_on_query_string w.client s }) h
  Early-client (on_header_field s ∷ ks) w h =
      Early-client ks (record w { client = http_client_on_header_name w.client s }) h
  Early-client (on_header_value s ∷ ks) w h =
      Early-client ks (record w { client = (http_client_on_header_value w.client s).0 }) h
  Early-client (on_body s ∷ ks) w h =
      Early-client ks (record w { client = http_client_add_to_body w.client s }) h
  Early-client (on_message_complete m p ∷ ks) w h = absurd h
