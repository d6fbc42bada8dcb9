-- ===== src/Cmd/Request.antt =====
-- The arguments of a URI, as a client writes them and as `cmd_run` of src/cmd.c reads them.
use webdis.Prelude.Search.{lacks, memchr-lacks_in, memchr-first, drop_past}
use webdis.Cmd.Parse.{fill_args}
use webdis.Cmd.Uri.{Encodes, decode_uri-Encodes}
use webdis.Prelude.Text.{Bytes}
use webdis.Prelude.{
  ℕ, zero, suc, ◌+◌, ◌-◌, ◌≤◌, ◌<◌, ◌≡◌, refl, sym, ap, ◌∙◌, true, false, List, [], ◌∷◌, ◌++◌, map,
  append_assoc, arith, ◌==◌, length, set, length-append, replicate, length-map,
}

-- An argument as it stands in the URI, percent-encoded and without a slash, and its bytes.
pub record Argument : Type 0 where
  pub text : Bytes
  pub bytes : Bytes
  pub encodes : Encodes text bytes
  pub no_slash : lacks b'/' text ≡ true

-- The arguments with a slash between each two.
abbrev pub path : List Argument → Bytes
path [] = []
path (a ∷ []) = a.text
path (a ∷ b ∷ args) = a.text ++ (b'/' ∷ path (b ∷ args))

-- An empty last argument is not seen.
abbrev pub EndsFull : List Argument → Type 0
EndsFull [] = Unit
EndsFull (a ∷ []) = 0 < length a.text
EndsFull (a ∷ b ∷ args) = EndsFull (b ∷ args)

-- Slots from `cur` on take values.
abbrev pub overwrite : ℕ → List Bytes → List Bytes → List Bytes
overwrite cur [] argv = argv
overwrite cur (v ∷ vs) argv = overwrite (cur + 1) vs (set argv cur v)

abbrev pub bytes_of : List Argument → List Bytes
bytes_of args = map (λ a. a.bytes) args

-- One round of the loop, on an argument that is the last one or is not.
module _ (f cur : ℕ) (argv : List Bytes) (a : Argument) (tail : Bytes) where
  fill_last :
      0 < length a.text
      → fill_args (suc f) (a.text ++ tail) (length a.text) cur argv
        ≡ (cur + 1, set argv cur a.bytes)
  unfolding fill_args
  fill_last h =
      let z : (length a.text == 0) ≡ false = ground arith in
      rw
        (
          z,
          fill_args,
          memchr-lacks_in b'/' a.text tail a.no_slash,
          decode_uri-Encodes tail a.encodes,
        )
        refl

  fill_next :
      (rest : Bytes)
      → fill_args
          (suc f)
          (a.text ++ (b'/' ∷ (rest ++ tail)))
          (length a.text + 1 + length rest)
          cur
          argv
        ≡ fill_args f (rest ++ tail) (length rest) (cur + 1) (set argv cur a.bytes)
  unfolding fill_args
  fill_next rest =
      let n = length a.text + 1 + length rest in
      let z : (n == 0) ≡ false = ground arith in
      let m : n - (length a.text + 1) ≡ length rest = omega arith in
      rw
        (
          z,
          fill_args,
          memchr-first b'/' a.text (rest ++ tail) n a.no_slash (omega arith),
          drop_past a.text (rest ++ tail) b'/',
          m,
          decode_uri-Encodes (b'/' ∷ (rest ++ tail)) a.encodes,
        )
        refl

fill_none : (f cur : ℕ) (argv : List Bytes) (p : Bytes) → fill_args f p 0 cur argv ≡ (cur, argv)
unfolding fill_args
fill_none zero cur argv p = refl
fill_none (suc f) cur argv p = refl

pub fill_args-overwrite :
    (f cur : ℕ) (argv : List Bytes) (args : List Argument) (tail : Bytes)
    → EndsFull args
    → length (path args) ≤ f
    → fill_args f (path args ++ tail) (length (path args)) cur argv
      ≡ (cur + length args, overwrite cur (bytes_of args) argv)
fill_args-overwrite zero cur argv [] tail h l = ground (arith, fill_none zero cur argv tail)
fill_args-overwrite (suc f) cur argv [] tail h l = ground (arith, fill_none (suc f) cur argv tail)
fill_args-overwrite zero cur argv (a ∷ []) tail h l = absurd (omega arith)
fill_args-overwrite (suc f) cur argv (a ∷ []) tail h l = fill_last f cur argv a tail h
fill_args-overwrite zero cur argv (a ∷ b ∷ args) tail h l =
    absurd (omega (arith, length-append a.text (b'/' ∷ path (b ∷ args))))
fill_args-overwrite (suc f) cur argv (a ∷ b ∷ args) tail h l =
    let rest = path (b ∷ args) in
    let len = length-append a.text (b'/' ∷ rest) in
    let n : length (a.text ++ (b'/' ∷ rest)) ≡ length a.text + 1 + length rest =
      omega (arith, len) in
    let count : cur + 1 + length (b ∷ args) ≡ cur + length (a ∷ b ∷ args) = omega arith in
    ap (λ p. fill_args (suc f) p (length (a.text ++ (b'/' ∷ rest))) cur argv)
      (append_assoc a.text (b'/' ∷ rest) tail)
    ∙ ap (λ k. fill_args (suc f) (a.text ++ (b'/' ∷ (rest ++ tail))) k cur argv) n
    ∙ fill_next f cur argv a tail rest
    ∙ fill_args-overwrite f (cur + 1) (set argv cur a.bytes) (b ∷ args) tail h (omega (arith, len))
    ∙ ap (λ k. (k, overwrite cur (bytes_of (a ∷ b ∷ args)) argv)) count

-- The slots behind `done` are the empty ones of `cmd_new`.
pub set-past :
    (done : List Bytes) (v : Bytes) (n : ℕ)
    → set (done ++ replicate (suc n) []) (length done) v ≡ (done ++ (v ∷ [])) ++ replicate n []
set-past [] v n = refl
set-past (x ∷ done) v n = ap (◌∷◌ x) (set-past done v n)

overwrite-replicate :
    (vs done : List Bytes)
    → overwrite (length done) vs (done ++ replicate (length vs) []) ≡ done ++ vs
overwrite-replicate [] done = refl
overwrite-replicate (v ∷ vs) done =
    let k : length done + 1 ≡ length (done ++ (v ∷ [])) =
      omega (arith, length-append done (v ∷ [])) in
    ap (overwrite (length done + 1) vs) (set-past done v (length vs))
    ∙ ap (λ j. overwrite j vs ((done ++ (v ∷ [])) ++ replicate (length vs) [])) k
    ∙ overwrite-replicate vs (done ++ (v ∷ []))
    ∙ append_assoc done (v ∷ []) vs

-- Arguments that are percent-encoded and joined by slashes are read back as they are, behind the
-- name, each in its own slot and none left over, whatever stands behind them in the URI (an
-- extension, a query string); only the last one must not be empty, and the rounds must be at
-- least as many as the bytes of the arguments.
pub fill_args-path :
    (f : ℕ) (name : Bytes) (args : List Argument) (tail : Bytes)
    → EndsFull args
    → length (path args) ≤ f
    → fill_args f (path args ++ tail) (length (path args)) 1 (name ∷ replicate (length args) [])
      ≡ (1 + length args, name ∷ bytes_of args)
fill_args-path f name args tail h l =
    let n : length (bytes_of args) ≡ length args = length-map args (λ a. a.bytes) in
    fill_args-overwrite f 1 (name ∷ replicate (length args) []) args tail h l
    ∙ ap (λ l. (1 + length args, l))
        (ap (λ k. overwrite 1 (bytes_of args) (name ∷ replicate k [])) (sym n)
          ∙ overwrite-replicate (bytes_of args) (name ∷ []))
