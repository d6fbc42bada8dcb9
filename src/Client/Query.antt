-- ===== src/Client/Query.antt =====
-- The query string: `http_client_on_query_string` of src/client.c.
use webdis.Client.{apply_parameter, query_from, http_client_on_query_string}
use webdis.Prelude.Search.{lacks, memchr-lacks, memchr-append, drop_past}
use webdis.Prelude.Text.{Bytes, memchr}
use webdis.State.{HttpClient}
use webdis.Prelude.{
  ℕ, zero, suc, ◌≤◌, ◌≡◌, refl, ◌∙◌, true, List, [], ◌∷◌, ◌++◌, arith, length, length-append,
  take-append, All,
}

-- A key and its value.
pub record Parameter : Type 0 where
  pub key : Bytes
  pub val : Bytes

-- `key=value&key=value…`.
abbrev pub query : List Parameter → Bytes
query [] = []
query (p ∷ []) = p.key ++ (b'=' ∷ p.val)
query (p ∷ q ∷ ps) = p.key ++ (b'=' ∷ (p.val ++ (b'&' ∷ query (q ∷ ps))))

-- A key has no `=`, a value no `&`.
abbrev pub IsPlain : Parameter → Type 0
IsPlain p = (lacks b'=' p.key ≡ true) × (lacks b'&' p.val ≡ true)

abbrev pub apply_all : HttpClient → List Parameter → HttpClient
apply_all c [] = c
apply_all c (p ∷ ps) = apply_all (apply_parameter c p.key p.val) ps

-- One round of the loop, on a pair that is the last one or is not.
module _ (f : ℕ) (c : HttpClient) (p : Parameter) (plain : IsPlain p) where
  query_from-last : query_from (suc f) c (p.key ++ (b'=' ∷ p.val)) ≡ apply_parameter c p.key p.val
  unfolding query_from
  query_from-last =
      rw
        (
          memchr-append b'=' p.key p.val plain.0,
          query_from,
          drop_past p.key p.val b'=',
          memchr-lacks b'&' p.val plain.1,
          take-append p.key (b'=' ∷ p.val),
          drop_past p.key p.val b'=',
        )
        refl

  query_from-next :
      (rest : Bytes)
      → query_from (suc f) c (p.key ++ (b'=' ∷ (p.val ++ (b'&' ∷ rest))))
        ≡ query_from f (apply_parameter c p.key p.val) rest
  unfolding query_from
  query_from-next rest =
      rw
        (
          memchr-append b'=' p.key (p.val ++ (b'&' ∷ rest)) plain.0,
          query_from,
          drop_past p.key (p.val ++ (b'&' ∷ rest)) b'=',
          memchr-append b'&' p.val rest plain.1,
          take-append p.key (b'=' ∷ (p.val ++ (b'&' ∷ rest))),
          drop_past p.key (p.val ++ (b'&' ∷ rest)) b'=',
          take-append p.val (b'&' ∷ rest),
          drop_past p.val rest b'&',
        )
        refl

query_from-query :
    (f : ℕ) (c : HttpClient) (ps : List Parameter)
    → length (query ps) ≤ f
    → All IsPlain ps
    → query_from f c (query ps) ≡ apply_all c ps
query_from-query zero c [] h plain = unfold query_from in refl
query_from-query (suc f) c [] h plain = unfold query_from memchr in refl
query_from-query zero c (p ∷ []) h plain =
    absurd (omega (arith, length-append p.key (b'=' ∷ p.val)))
query_from-query (suc f) c (p ∷ []) h plain = query_from-last f c p plain.0
query_from-query zero c (p ∷ q ∷ ps) h plain =
    absurd (omega (arith, length-append p.key (b'=' ∷ (p.val ++ (b'&' ∷ query (q ∷ ps))))))
query_from-query (suc f) c (p ∷ q ∷ ps) h plain =
    query_from-next f c p plain.0 (query (q ∷ ps))
    ∙ query_from-query f (apply_parameter c p.key p.val) (q ∷ ps)
        (omega (
          arith,
          length-append p.key (b'=' ∷ (p.val ++ (b'&' ∷ query (q ∷ ps)))),
          length-append p.val (b'&' ∷ query (q ∷ ps)),
        ))
        plain.1

-- A query string of pairs, with no `=` in a key and no `&` in a value, is read pair by pair, in
-- their order: each has its effect on the client, and nothing else has.
pub http_client_on_query_string-query :
    (c : HttpClient) (ps : List Parameter)
    → All IsPlain ps
    → http_client_on_query_string c (query ps) ≡ apply_all c ps
unfolding http_client_on_query_string
http_client_on_query_string-query c ps plain =
    query_from-query (length (query ps)) c ps (omega arith) plain
