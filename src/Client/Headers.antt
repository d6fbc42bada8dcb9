-- ===== src/Client/Headers.antt =====
-- The headers that the callbacks of src/client.c gather from the pieces of the HTTP parser.
use webdis.Client.{
  http_client_on_header_name, http_client_on_header_value, on_last, is_key, add_to_key, add_to_val,
}
use webdis.Prelude.Text.{Bytes}
use webdis.State.{Header, HttpClient}
use webdis.Prelude.{
  ◌≡◌, refl, sym, ap, ◌∙◌, true, false, none, some, List, [], ◌∷◌, ◌++◌, map, append-nil,
  append_assoc,
}

-- A header in the pieces that the parser makes of it: at least one for the name and one for the
-- value, at any places.
pub record Field : Type 0 where
  pub name : Bytes
  pub more_name : List Bytes
  pub val : Bytes
  pub more_val : List Bytes

abbrev pub joined : Bytes → List Bytes → Bytes
joined b [] = b
joined b (piece ∷ pieces) = joined (b ++ piece) pieces

-- The header whose pieces they are.
abbrev pub whole : Field → Header
whole f = record { key = joined f.name f.more_name; val = some (joined f.val f.more_val) }

abbrev pub names_fed : HttpClient → List Bytes → HttpClient
names_fed c [] = c
names_fed c (piece ∷ pieces) = names_fed (http_client_on_header_name c piece) pieces

abbrev pub vals_fed : HttpClient → List Bytes → HttpClient
vals_fed c [] = c
vals_fed c (piece ∷ pieces) = vals_fed (http_client_on_header_value c piece).0 pieces

-- The callbacks in the parser's order.
abbrev pub fed : HttpClient → List Field → HttpClient
fed c [] = c
fed c (f ∷ fs) = fed (vals_fed (names_fed c (f.name ∷ f.more_name)) (f.val ∷ f.more_val)) fs

on_last-append :
    (f : Header → Header) (hs : List Header) (h : Header)
    → on_last f (hs ++ (h ∷ [])) ≡ hs ++ (f h ∷ [])
on_last-append f [] h = refl
on_last-append f (k ∷ []) h = refl
on_last-append f (k ∷ l ∷ hs) h = ap (◌∷◌ k) (on_last-append f (l ∷ hs) h)

-- A client that has read a name up to here, or a value.
record InName (c : HttpClient) (hs : List Header) (key : Bytes) : Type 0 where
  headers : c.headers ≡ hs ++ (record { key = key; val = none } ∷ [])
  last : is_key c.last_cb ≡ true

record InValue (c : HttpClient) (hs : List Header) (key val : Bytes) : Type 0 where
  headers : c.headers ≡ hs ++ (record { key = key; val = some val } ∷ [])
  last : is_key c.last_cb ≡ false

first_name :
    (c : HttpClient) (piece : Bytes)
    → is_key c.last_cb ≡ false
    → InName (http_client_on_header_name c piece) c.headers piece
unfolding http_client_on_header_name
first_name c piece h = record {
  headers = rw h (on_last-append (add_to_key piece) c.headers (record { key = []; val = none }));
  last = refl;
}

next_name :
    (c : HttpClient) (hs : List Header) (key piece : Bytes)
    → InName c hs key
    → InName (http_client_on_header_name c piece) hs (key ++ piece)
unfolding http_client_on_header_name
next_name c hs key piece n = record {
  headers =
      rw (n.last, n.headers)
        (on_last-append (add_to_key piece) hs (record { key = key; val = none }));
  last = refl;
}

names_fed-InName :
    (c : HttpClient) (hs : List Header) (key : Bytes) (pieces : List Bytes)
    → InName c hs key
    → InName (names_fed c pieces) hs (joined key pieces)
names_fed-InName c hs key [] n = n
names_fed-InName c hs key (piece ∷ pieces) n =
    names_fed-InName (http_client_on_header_name c piece) hs (key ++ piece) pieces
      (next_name c hs key piece n)

first_value :
    (c : HttpClient) (hs : List Header) (key piece : Bytes)
    → InName c hs key
    → InValue (http_client_on_header_value c piece).0 hs key piece
unfolding http_client_on_header_value
first_value c hs key piece n = record {
  headers = rw n.headers (on_last-append (add_to_val piece) hs (record { key = key; val = none }));
  last = refl;
}

next_value :
    (c : HttpClient) (hs : List Header) (key val piece : Bytes)
    → InValue c hs key val
    → InValue (http_client_on_header_value c piece).0 hs key (val ++ piece)
unfolding http_client_on_header_value
next_value c hs key val piece n = record {
  headers =
      rw n.headers (on_last-append (add_to_val piece) hs (record { key = key; val = some val }));
  last = refl;
}

vals_fed-InValue :
    (c : HttpClient) (hs : List Header) (key val : Bytes) (pieces : List Bytes)
    → InValue c hs key val
    → InValue (vals_fed c pieces) hs key (joined val pieces)
vals_fed-InValue c hs key val [] n = n
vals_fed-InValue c hs key val (piece ∷ pieces) n =
    vals_fed-InValue (http_client_on_header_value c piece).0 hs key (val ++ piece) pieces
      (next_value c hs key val piece n)

-- Wherever the parser cuts the names and the values of a request, and however often, the headers
-- that the client holds are the whole ones, in their order, behind those it held before.
pub fed-headers :
    (c : HttpClient) (fs : List Field)
    → is_key c.last_cb ≡ false
    → (fed c fs).headers ≡ c.headers ++ map whole fs
fed-headers c [] h = sym (append-nil c.headers)
fed-headers c (f ∷ fs) h =
    let named = http_client_on_header_name c f.name in
    let n = names_fed-InName named c.headers f.name f.more_name (first_name c f.name h) in
    let named' = names_fed named f.more_name in
    let key = joined f.name f.more_name in
    let v =
      vals_fed-InValue (http_client_on_header_value named' f.val).0 c.headers key f.val f.more_val
        (first_value named' c.headers key f.val n) in
    let c' = vals_fed named' (f.val ∷ f.more_val) in
    fed-headers c' fs v.last
    ∙ ap (λ l. l ++ map whole fs) v.headers
    ∙ append_assoc c.headers (whole f ∷ []) (map whole fs)
