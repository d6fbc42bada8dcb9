-- ===== src/Cmd/Layout.antt =====
-- The URI of a request as a client puts it together, and how the first half of `cmd_run` of
-- src/cmd.c takes it apart: the query string, the number of parameters, the name and the database.
use webdis.Cmd.Parse.{strip_query, count_params, locate, shifted, db_from}
use webdis.Cmd.Request.{Argument, path}
use webdis.Cmd.Slashes.{slashes, count_params-slashes}
use webdis.Prelude.Search.{lacks, memchr-lacks, memchr-append, memchr-first, drop_past}
use webdis.Prelude.Text.{Bytes, memchr}
use webdis.Prelude.{
  ℕ, suc, ◌+◌, ◌-◌, ◌<◌, ◌≡◌, refl, ap, ◌∙◌, Bool, true, false, Option, none, some, List, [], ◌∷◌,
  ◌++◌, append-nil, append_assoc, arith, ◌==◌, if◌then◌else◌, length, length-append, take-append,
}

-- The database in front of the name, as it is written and as a number.
abbrev pub Front : Type 0
Front = Option (Bytes × ℕ)

abbrev pub front_text : Front → Bytes
front_text none = []
front_text (some (d, n)) = d ++ (b'/' ∷ [])

abbrev pub front_database : Front → Option ℕ
front_database none = none
front_database (some (d, n)) = some n

-- With no database the name must not be a number.
abbrev pub IsFront : Front → Bytes → Type 0
IsFront none name = db_from 0 name ≡ none
IsFront (some (d, n)) name = (0 < length d) × (lacks b'/' d ≡ true) × (db_from 0 d ≡ some n)

-- The name with its arguments: at least one of them.
abbrev pub named : Bytes → List Argument → Bytes
named name args = name ++ (b'/' ∷ path args)

-- Nothing, or a question mark and what stands behind it.
abbrev pub IsQuery : Bytes → Type 0
IsQuery [] = Unit
IsQuery (c ∷ q) = c ≡ b'?'

pub strip_query_lem :
    (base query : Bytes)
    → lacks b'?' base ≡ true
    → IsQuery query
    → strip_query (base ++ query) ≡ length base
unfolding strip_query
strip_query_lem base [] l q =
    ap strip_query (append-nil base) ∙ rw (memchr-lacks b'?' base l, strip_query) refl
strip_query_lem base (c ∷ query) l q = rw (q, memchr-append b'?' base query l, strip_query) refl

lacks-append : (c : ℕ) (s t : Bytes) → lacks c s ≡ true → lacks c t ≡ true → lacks c (s ++ t) ≡ true
lacks-append c [] t h k = k
lacks-append c (x ∷ s) t h k = ground (arith, lacks-append c s t)

slashes-append : (s t : Bytes) → slashes (s ++ t) ≡ slashes s + slashes t
slashes-append [] t = omega arith
slashes-append (x ∷ s) t = ground (arith, slashes-append s t)

slashes-lacks : (s : Bytes) → lacks b'/' s ≡ true → slashes s ≡ 0
slashes-lacks [] h = refl
slashes-lacks (x ∷ s) h = ground (arith, slashes-lacks s)

slashes-path : (a : Argument) (args : List Argument) → slashes (path (a ∷ args)) ≡ length args
slashes-path a [] = slashes-lacks a.text a.no_slash
slashes-path a (b ∷ args) =
    slashes-append a.text (b'/' ∷ path (b ∷ args))
    ∙ rw (slashes-lacks a.text a.no_slash, slashes-path b args) (omega arith)

-- The parameters before the arguments: the name, and the database.
abbrev pub front_count : Front → ℕ
front_count none = 0
front_count (some d) = 1

slashes-front :
    (f : Front) (name rest : Bytes)
    → IsFront f name
    → slashes (front_text f ++ rest) ≡ front_count f + slashes rest
slashes-front none name rest h = omega arith
slashes-front (some (d, n)) name rest (p, l, e) =
    rw (slashes-append (d ++ (b'/' ∷ [])) rest, slashes-append d (b'/' ∷ []), slashes-lacks d l)
      (omega arith)

-- A first byte that is no slash.
starts : Bytes → Bool
starts [] = false
starts (c ∷ s) = if c == b'/' then false else true

starts-lacks : (s t : Bytes) → 0 < length s → lacks b'/' s ≡ true → starts (s ++ t) ≡ true
unfolding starts
starts-lacks [] t p l = absurd (omega arith)
starts-lacks (x ∷ s) t p l = ground arith

starts-count : (s : Bytes) → starts s ≡ true → count_params (length s) s ≡ suc (slashes s)
unfolding starts
starts-count [] h = absurd (cc)
starts-count (c ∷ s) h = count_params-slashes (length (c ∷ s)) (c ∷ s) (omega arith) ∙ ground arith

-- Each part of the path counts, the database and the name among them; an extension does not.
pub count_params_lem :
    (f : Front) (name : Bytes) (a : Argument) (args : List Argument) (suffix : Bytes)
    → IsFront f name
    → 0 < length name
    → lacks b'/' name ≡ true
    → lacks b'/' suffix ≡ true
    → let base = front_text f ++ (named name (a ∷ args) ++ suffix) in
      count_params (length base) base ≡ front_count f + (1 + length (a ∷ args))
count_params_lem f name a args suffix h p l s =
    let rest = named name (a ∷ args) ++ suffix in
    let first : starts (front_text f ++ rest) ≡ true = starts_front f h in
    let within : slashes rest ≡ 1 + length args =
      slashes-append (named name (a ∷ args)) suffix
      ∙ rw
          (
            slashes-append name (b'/' ∷ path (a ∷ args)),
            slashes-lacks name l,
            slashes-lacks suffix s,
            slashes-path a args,
          )
          (omega arith) in
    starts-count (front_text f ++ rest) first ∙ omega (arith, slashes-front f name rest h, within)
  where
    starts_front :
        (f : Front)
        → IsFront f name
        → starts (front_text f ++ (named name (a ∷ args) ++ suffix)) ≡ true
    starts_front none h =
        ap starts (append_assoc name (b'/' ∷ path (a ∷ args)) suffix)
        ∙ starts-lacks name ((b'/' ∷ path (a ∷ args)) ++ suffix) p l
    starts_front (some (d, n)) (q, k, e) =
        ap starts (append_assoc d (b'/' ∷ []) (named name (a ∷ args) ++ suffix))
        ∙ starts-lacks d ((b'/' ∷ []) ++ (named name (a ∷ args) ++ suffix)) q k

-- What `locate` finds, at the first slash.
abbrev pub Located : Front → Bytes → Bytes → ℕ → Type 0
Located f name uri uri_len =
    (slash : ℕ) × (memchr uri b'/' uri_len ≡ some slash)
    × (locate uri uri_len (some slash) ≡ record {
      database = front_database f;
      name_at = length (front_text f);
      cmd_len = length name;
    })

locate-name :
    (name rest : Bytes) (uri_len : ℕ)
    → db_from 0 name ≡ none
    → lacks b'/' name ≡ true
    → length name < uri_len
    → Located none name (name ++ (b'/' ∷ rest)) uri_len
unfolding locate
locate-name name rest uri_len h l n = (
  length name,
  memchr-first b'/' name rest uri_len l n,
  rw (take-append name (b'/' ∷ rest), h, locate) refl,
)

locate-database :
    (d : Bytes) (db : ℕ) (name rest : Bytes) (uri_len : ℕ)
    → lacks b'/' d ≡ true
    → db_from 0 d ≡ some db
    → lacks b'/' name ≡ true
    → length d + 1 + length name < uri_len
    → Located (some (d, db)) name (d ++ (b'/' ∷ (name ++ (b'/' ∷ rest)))) uri_len
unfolding locate
locate-database d db name rest uri_len k e l n =
    let uri = d ++ (b'/' ∷ (name ++ (b'/' ∷ rest))) in
    let at : length d + 1 ≡ length (d ++ (b'/' ∷ [])) =
      omega (arith, length-append d (b'/' ∷ [])) in
    (
      length d,
      memchr-first b'/' d (name ++ (b'/' ∷ rest)) uri_len k (omega arith),
      rw
          (
            take-append d (b'/' ∷ (name ++ (b'/' ∷ rest))),
            e,
            locate,
            drop_past d (name ++ (b'/' ∷ rest)) b'/',
            memchr-first b'/' name rest (uri_len - length d) l (omega arith),
            shifted,
            at,
          )
          refl,
    )

pub locate_lem :
    (f : Front) (name : Bytes) (args : List Argument) (tail : Bytes)
    → IsFront f name
    → lacks b'/' name ≡ true
    → Located f name
        (front_text f ++ (named name args ++ tail))
        (length (front_text f ++ named name args))
locate_lem none name args tail h l =
    let n : length name < length (named name args) =
      omega (arith, length-append name (b'/' ∷ path args)) in
    let (slash, e, t) = locate-name name (path args ++ tail) (length (named name args)) h l n in
    let u = append_assoc name (b'/' ∷ path args) tail in rw u (slash, e, t)
locate_lem (some (d, db)) name args tail (p, k, e) l =
    let len = length (front_text (some (d, db)) ++ named name args) in
    let n : length d + 1 + length name < len = omega (
      arith,
      length-append (d ++ (b'/' ∷ [])) (named name args),
      length-append d (b'/' ∷ []),
      length-append name (b'/' ∷ path args),
    ) in
    let (slash, m, t) = locate-database d db name (path args ++ tail) len k e l n in
    let u =
      append_assoc d (b'/' ∷ []) (named name args ++ tail)
      ∙ ap (λ s. d ++ (b'/' ∷ s)) (append_assoc name (b'/' ∷ path args) tail) in
    rw u (slash, m, t)
