-- ===== src/Cmd/Filled.antt =====
-- The arguments that `cmd_run` of src/cmd.c sends: those of the URI, and the body of a PUT.
use webdis.Cmd.Parse.{fill_args}
use webdis.Cmd.Request.{
  Argument, path, EndsFull, overwrite, bytes_of, fill_args-overwrite, set-past,
}
use webdis.Cmd.Run.{put_body}
use webdis.Prelude.Text.{Bytes}
use webdis.Prelude.{
  ℕ, suc, ◌+◌, ◌≤◌, ◌≡◌, refl, sym, ap, ◌∙◌, List, [], ◌∷◌, ◌++◌, append-nil, append_assoc, arith,
  length, set, length-append, take, take-append, replicate, length-map,
}

abbrev pub body_args : Bytes → List Bytes
body_args [] = []
body_args (b ∷ body) = (b ∷ body) ∷ []

overwrite-append :
    (cur : ℕ) (xs ys argv : List Bytes)
    → overwrite cur (xs ++ ys) argv ≡ overwrite (cur + length xs) ys (overwrite cur xs argv)
overwrite-append cur [] ys argv = let e : cur + 0 ≡ cur = omega arith in rw e refl
overwrite-append cur (x ∷ xs) ys argv =
    let e : cur + suc (length xs) ≡ cur + 1 + length xs = omega arith in
    rw e (overwrite-append (cur + 1) xs ys (set argv cur x))

put_body-overwrite :
    (body : Bytes) (cur : ℕ) (argv : List Bytes)
    → put_body body (cur, argv) ≡ overwrite cur (body_args body) argv
unfolding put_body
put_body-overwrite [] cur argv = refl
put_body-overwrite (b ∷ body) cur argv = refl

-- The slots that are left behind the values are empty.
overwrite-slots :
    (vs done : List Bytes) (k : ℕ)
    → overwrite (length done) vs (done ++ replicate (length vs + k) [])
      ≡ (done ++ vs) ++ replicate k []
overwrite-slots [] done k = let e : 0 + k ≡ k = omega arith in rw (e, append-nil done) refl
overwrite-slots (v ∷ vs) done k =
    let n : suc (length vs) + k ≡ suc (length vs + k) = omega arith in
    let at : length done + 1 ≡ length (done ++ (v ∷ [])) =
      omega (arith, length-append done (v ∷ [])) in
    ap (λ j. overwrite (length done + 1) vs (set (done ++ replicate j []) (length done) v)) n
    ∙ ap (overwrite (length done + 1) vs) (set-past done v (length vs + k))
    ∙ ap (λ j. overwrite j vs ((done ++ (v ∷ [])) ++ replicate (length vs + k) [])) at
    ∙ overwrite-slots vs (done ++ (v ∷ [])) k
    ∙ ap (λ l. l ++ replicate k []) (append_assoc done (v ∷ []) vs)

take-append_all {ℓ} : {A : Type ℓ} (xs ys : List A) {n : ℕ} → n ≡ length xs → take n (xs ++ ys) ≡ xs
take-append_all xs ys e = rw e (take-append xs ys)

-- With slots for the name, the arguments and the body, and `k` more: what is sent is the name, the
-- arguments and the body, if there is one.
pub filled_args :
    (fuel k : ℕ) (name : Bytes) (args : List Argument) (tail body : Bytes)
    → EndsFull args
    → length (path args) ≤ fuel
    → let vs = bytes_of args ++ body_args body in
      take (1 + length vs) (
        put_body body (
          fill_args fuel
            (path args ++ tail)
            (length (path args))
            1
            (name ∷ replicate (length vs + k) [])))
      ≡ name ∷ vs
filled_args fuel k name args tail body h l =
    let vs = bytes_of args ++ body_args body in
    let argv = name ∷ replicate (length vs + k) [] in
    let n : length (bytes_of args) ≡ length args = length-map args (λ a. a.bytes) in
    let wrote : put_body body (fill_args fuel (path args ++ tail) (length (path args)) 1 argv)
        ≡ overwrite 1 vs argv =
      ap (put_body body) (fill_args-overwrite fuel 1 argv args tail h l)
      ∙ put_body-overwrite body (1 + length args) (overwrite 1 (bytes_of args) argv)
      ∙ ap (λ m. overwrite (1 + m) (body_args body) (overwrite 1 (bytes_of args) argv)) (sym n)
      ∙ sym (overwrite-append 1 (bytes_of args) (body_args body) argv) in
    ap (take (1 + length vs)) (wrote ∙ overwrite-slots vs (name ∷ []) k)
    ∙ take-append_all (name ∷ vs) (replicate k []) (omega arith)
