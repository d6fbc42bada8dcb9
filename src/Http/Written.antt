-- ===== src/Http/Written.antt =====
-- Responses of src/http.c as a client reads them.
use mathlib.Core.Path.{subst}
use webdis.Http.{HttpResponse, ResponseHeader, header_lines, crlf, format_response}
use webdis.Http.Chunk.{read_digits-decimal, cut-append}
use webdis.Http.Fields.{
  starts_plain, read_line-append, is_field, field, read_fields-header_lines, length-header_lines,
}
use webdis.Http.Reader.{
  read_digits, read_line, read_fields, lookup_field, cut, read_status, read_message,
}
use webdis.Http.Status.{
  minor_of, first_line, read_status-first_line, first_line-OneLine, status_line-first_line,
  lacks-decimal,
}
use webdis.Http.Length.{
  IsPlain, content_of, content_length_name, fields_of, message_of, set_content_length-IsAdded,
  body_bytes-content_of, are_fields-append, map-append_field, lookup_field-append,
}
use webdis.Prelude.Digits.{decimal}
use webdis.Prelude.Search.{lacks}
use webdis.Prelude.Text.{Bytes, strcasecmp_eq}
use webdis.Prelude.{
  ℕ, ◌^◌, ◌<◌, ◌≡◌, refl, sym, ap, ◌∙◌, true, ◌&&◌, some, List, [], ◌∷◌, ◌++◌, map, append-nil,
  append_assoc, arith, length, length-append,
}

-- The parts that the reader finds, one after the other.
read_message-parts :
    (s first rest size body content last : Bytes) (minor status : ℕ) (reason : Bytes)
    (fields : List (Bytes × Bytes))
    → read_line s ≡ some (first, rest)
    → read_status first ≡ some (minor, status, reason)
    → read_fields (length s) rest ≡ some (fields, body)
    → lookup_field content_length_name fields ≡ some size
    → cut (read_digits 10 0 size).0 body ≡ some (content, last)
    → read_message s
      ≡ some (
        record {
          minor = minor;
          status = status;
          reason = reason;
          fields = fields;
          content = content;
        },
        last,
      )
unfolding read_message
read_message-parts s first rest size body content last minor status reason fields e1 e2 e3 e4 e5 =
    rw (e1, e2, e3, e4, e5)

append-lines :
    (a h b s : Bytes)
    → ((a ++ crlf) ++ (h ++ (crlf ++ b))) ++ s ≡ a ++ (13 ∷ 10 ∷ (h ++ (13 ∷ 10 ∷ (b ++ s))))
append-lines a h b s =
    append_assoc (a ++ crlf) (h ++ (crlf ++ b)) s
    ∙ append_assoc a crlf ((h ++ (crlf ++ b)) ++ s)
    ∙ ap (λ t. a ++ (13 ∷ 10 ∷ t)) (append_assoc h (crlf ++ b) s)

-- The bytes of a response: its first line, its fields and its body.
format_response-parts :
    (r : HttpResponse) (s : Bytes)
    → IsPlain r
    → (h : ResponseHeader) × (field h ≡ (content_length_name, decimal (length (content_of r.body))))
      × ((format_response r).out ++ s
          ≡ first_line r
            ++ (13
                ∷ 10
                ∷ (header_lines (r.headers ++ (h ∷ [])) ++ (13 ∷ 10 ∷ (content_of r.body ++ s)))))
unfolding format_response
format_response-parts r s p =
    let (h, e, whole, same, named) = set_content_length-IsAdded r p in
    let line = status_line-first_line r (first_line-OneLine r p.code_ge p.code_lt p.one_line).1 in
    (
      h,
      named,
      rw (line, e, whole, same, body_bytes-content_of r.body)
          (append-lines (first_line r) (header_lines (r.headers ++ (h ∷ []))) (content_of r.body)
            s),
    )

-- The number in the new field is read.
read_digits-decimal_whole : (n : ℕ) → n < 10 ^ 21 → read_digits 10 0 (decimal n) ≡ (n, [])
unfolding read_digits
read_digits-decimal_whole n h =
    ap (read_digits 10 0) (sym (append-nil (decimal n))) ∙ read_digits-decimal n [] h

length-is_field :
    (h : ResponseHeader) (n : ℕ) → field h ≡ (content_length_name, decimal n) → is_field h ≡ true
length-is_field h n e =
    let (line, plain) = lacks-decimal n in
    subst (λ f. (lacks 13 f.0 && lacks b':' f.0 && lacks 13 f.1 && starts_plain f.1) ≡ true) (sym e)
      (rw (line, plain))

name-strcasecmp_eq : strcasecmp_eq content_length_name content_length_name ≡ true
unfolding strcasecmp_eq
name-strcasecmp_eq = refl

-- A response that is not chunked and has a code of three digits, a message and headers that each
-- fit on a line, no length of its own and a body only under code 200, of fewer than 10 ^ 21 bytes,
-- is read back from the bytes that are written for it: its version, code, message, headers with the
-- length behind them, and body. What follows it is left.
pub read_message-format_response :
    (r : HttpResponse) (s : Bytes)
    → IsPlain r
    → read_message ((format_response r).out ++ s) ≡ some (message_of r, s)
read_message-format_response r s p =
    let (h, named, whole) = format_response-parts r s p in
    let n = length (content_of r.body) in
    let hs = r.headers ++ (h ∷ []) in
    let tail = content_of r.body ++ s in
    let lines = header_lines hs ++ (13 ∷ 10 ∷ tail) in
    let (one_line, _) = first_line-OneLine r p.code_ge p.code_lt p.one_line in
    let bytes = first_line r ++ (13 ∷ 10 ∷ lines) in
    let names : map field hs ≡ fields_of r =
      map-append_field r.headers h ∙ ap (λ f. map field r.headers ++ (f ∷ [])) named in
    let fuel : length hs < length bytes = omega (
      arith,
      length-append (first_line r) (13 ∷ 10 ∷ lines),
      length-header_lines hs,
      length-append (header_lines hs) (13 ∷ 10 ∷ tail),
    ) in
    ap read_message whole
    ∙ read_message-parts bytes (first_line r) lines (decimal n) tail (content_of r.body) s
        (minor_of r) r.code r.msg (fields_of r) (read_line-append (first_line r) lines one_line)
        (read_status-first_line r p.code_lt)
        (read_fields-header_lines (length bytes) hs tail fuel
            (are_fields-append r.headers h p.fields (length-is_field h n named))
          ∙ ap (λ f. some (f, tail)) names)
        (lookup_field-append content_length_name (decimal n) (map field r.headers) p.no_length_field
          name-strcasecmp_eq)
        (ap (λ k. cut k.0 tail) (read_digits-decimal_whole n p.size)
          ∙ cut-append (content_of r.body) s)
