-- ===== src/Http/Status.antt =====
-- The first line of a response of src/http.c, as a client reads it.
use mathlib.Core.Path.{subst}
use webdis.Http.{HttpResponse, status_line, crlf}
use webdis.Http.Chunk.{read_digits-decimal, read_digits-stop, decimal_lem}
use webdis.Http.Fields.{starts_plain, lacks-append}
use webdis.Http.Reader.{read_digits, read_reason, read_code, read_status}
use webdis.Prelude.Digits.{digit, digits_onto, decimal}
use webdis.Prelude.Search.{lacks}
use webdis.Prelude.Text.{Bytes, codes}
use webdis.Prelude.{
  ℕ, zero, suc, ◌+◌, ◌/◌, ◌%◌, ◌≤◌, ◌<◌, ◌≡◌, refl, sym, ap, ◌∙◌, inl, inr, true, false, some, [],
  ◌∷◌, ◌++◌, append_assoc, arith, ltb, ◌==◌, if◌then◌else◌, lt→ltb, Bool-cases, length,
  length-append, take, take-append, replicate,
}

digits_onto-one : (f n : ℕ) → n < 10 → digits_onto 10 (suc f) n [] ≡ digit n ∷ []
unfolding digits_onto
digits_onto-one f n h = rw (lt→ltb n 10 h)

decimal-three :
    (n : ℕ)
    → 100 ≤ n
    → n < 1000
    → decimal n ≡ digit (n / 10 / 10) ∷ digit (n / 10 % 10) ∷ digit (n % 10) ∷ []
unfolding digits_onto
decimal-three n h0 h1 = decimal_lem n ∙ go 17
  where
    big : ltb n 10 ≡ false
    big = ground arith

    big' : ltb (n / 10) 10 ≡ false
    big' = ground arith

    small : ltb (n / 10 / 10) 10 ≡ true
    small = ground arith

    go :
        (f : ℕ)
        → digits_onto 10 (suc (suc (suc f))) n []
          ≡ digit (n / 10 / 10) ∷ digit (n / 10 % 10) ∷ digit (n % 10) ∷ []
    go f = rw (big, big', small)

abbrev pub minor_of : HttpResponse → ℕ
minor_of r = if r.http_version == 0 then 0 else 1

abbrev pub first_line : HttpResponse → Bytes
first_line r =
    codes "HTTP/1." ++ (decimal (minor_of r) ++ (b' ' ∷ (decimal r.code ++ (b' ' ∷ r.msg))))

read_digits-number :
    (n c : ℕ) (s : Bytes)
    → n < 1000
    → (c == b' ') ≡ true
    → read_digits 10 0 (decimal n ++ (c ∷ s)) ≡ (n, c ∷ s)
read_digits-number n c s h hc =
    read_digits-decimal n (c ∷ s) (omega arith) ∙ read_digits-stop 10 n c s (ground arith)

pub read_status-first_line :
    (r : HttpResponse)
    → r.code < 1000
    → read_status (first_line r) ≡ some (minor_of r, r.code, r.msg)
unfolding read_status
read_status-first_line r h =
    let reason : read_digits 10 0 (decimal r.code ++ (b' ' ∷ r.msg)) ≡ (r.code, b' ' ∷ r.msg) =
      read_digits-number r.code b' ' r.msg h refl in
    let rest = decimal r.code ++ (b' ' ∷ r.msg) in
    let minor : minor_of r < 1000 = ground arith in
    let version : read_digits 10 0 (decimal (minor_of r) ++ (b' ' ∷ rest))
        ≡ (minor_of r, b' ' ∷ rest) =
      read_digits-number (minor_of r) b' ' rest minor refl in
    ap read_code version ∙ ap (read_reason (minor_of r)) reason

lacks-digits_onto :
    (f n : ℕ) (acc : Bytes)
    → lacks 13 acc ≡ true
    → (lacks 13 (digits_onto 10 f n acc) ≡ true) × (starts_plain (digits_onto 10 f n acc) ≡ true)
unfolding digits_onto
lacks-digits_onto zero n acc h = let d : n % 10 < 10 = omega arith in ground arith
lacks-digits_onto (suc f) n acc h =
    let d : n % 10 < 10 = omega arith in
    let plain : lacks 13 (digit (n % 10) ∷ acc) ≡ true = ground arith in
    let rest = lacks-digits_onto f (n / 10) (digit (n % 10) ∷ acc) plain in
    elim (Bool-cases (ltb n 10)) [ inl e ↦ rw e (ground arith) | inr e ↦ rw e rest ]

pub lacks-decimal : (n : ℕ) → (lacks 13 (decimal n) ≡ true) × (starts_plain (decimal n) ≡ true)
lacks-decimal n = rw (decimal_lem n) (lacks-digits_onto 20 n [] refl)

decimal-one : (n : ℕ) → n < 10 → decimal n ≡ digit n ∷ []
decimal-one n h = decimal_lem n ∙ digits_onto-one 19 n h

pub first_line-OneLine :
    (r : HttpResponse)
    → 100 ≤ r.code
    → r.code < 1000
    → lacks 13 r.msg ≡ true
    → (lacks 13 (first_line r) ≡ true) × (length (first_line r) ≡ 13 + length r.msg)
first_line-OneLine r h0 h1 h =
    let tail = decimal r.code ++ (b' ' ∷ r.msg) in
    let code : lacks 13 tail ≡ true =
      lacks-append 13 (decimal r.code) (b' ' ∷ r.msg) (lacks-decimal r.code).0 h in
    let three : length tail ≡ 4 + length r.msg = rw (decimal-three r.code h0 h1) (omega arith) in
    let minor : decimal (minor_of r) ≡ digit (minor_of r) ∷ [] =
      decimal-one (minor_of r) (ground arith) in
    let plain : (digit (minor_of r) == 13) ≡ false = ground arith in
    rw minor (rw plain code, omega (arith, three))

first_line-append :
    (r : HttpResponse) (t : Bytes)
    → first_line r ++ t
      ≡ codes "HTTP/1."
        ++ (decimal (minor_of r) ++ (b' ' ∷ (decimal r.code ++ (b' ' ∷ (r.msg ++ t)))))
first_line-append r t =
    ap (λ s. codes "HTTP/1." ++ s)
      (append_assoc (decimal (minor_of r)) (b' ' ∷ (decimal r.code ++ (b' ' ∷ r.msg))) t
        ∙ ap (λ s. decimal (minor_of r) ++ (b' ' ∷ s))
            (append_assoc (decimal r.code) (b' ' ∷ r.msg) t))

take-prefix : (n : ℕ) (xs ys : Bytes) → length xs ≡ n → take n (xs ++ ys) ≡ xs
take-prefix n xs ys h = subst (λ k. take k (xs ++ ys) ≡ xs) h (take-append xs ys)

pub status_line-first_line :
    (r : HttpResponse)
    → length (first_line r) ≡ 13 + length r.msg
    → status_line r ≡ first_line r ++ crlf
status_line-first_line r h =
    let n = 15 + length r.msg in
    let len : length (first_line r ++ crlf) ≡ n =
      omega (arith, length-append (first_line r) crlf) in
    let pad : Bytes = replicate n 0 in
    let whole : (first_line r ++ crlf) ++ pad ≡ first_line r ++ (crlf ++ pad) =
      append_assoc (first_line r) crlf pad in
    ap (take n) (sym (whole ∙ first_line-append r (crlf ++ pad)))
    ∙ take-prefix n (first_line r ++ crlf) pad len
