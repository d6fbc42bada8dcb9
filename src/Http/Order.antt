-- ===== src/Http/Order.antt =====
-- src/http.c: the bytes that the writes of a response hand to the socket.
use mathlib.Core.Path.{subst}
use native.Mathlib.Nat.{add-zero, mod-eq_of_lt}
use webdis.Http.Delivery.{
  to_size_t, unsent, is_whole, WriteResult, Kernel, Outcome, http_response_cleanup, http_can_write,
  http_schedule_write, resume, deliver, IsHonest, IsReady, left, IsInOrder,
}
use webdis.Http.{HttpResponse}
use webdis.Prelude.{
  if◌then◌else◌, drop-add, take-add, take-all, ℕ, zero, suc, ◌+◌, ◌-◌, ◌%◌, ◌^◌, ◌≤◌, ◌<◌, ◌≡◌,
  refl, sym, ap, ◌∙◌, inl, inr, Bool, true, false, not, ◌&&◌, ◌||◌, [], ◌++◌, arith, ltb, ◌==◌,
  ==_iff, Bool-cases, length, length-append, take, drop, take-append-drop, length-take, length-drop,
}
use webdis.Prelude.Text.{Bytes}

-- `http_can_write` where no size leaves an `int`.
abbrev plain_write : ℕ → HttpResponse → WriteResult → Bytes × Outcome
plain_write fd r WriteResult.failed = ([], http_response_cleanup r fd (length r.out == r.sent))
plain_write fd r (WriteResult.wrote n) =
    let r' = record r { sent = r.sent + n } in
    (
      take n (drop r.sent r.out),
      if n == 0 || length r'.out == r'.sent
          then http_response_cleanup r' fd (length r'.out == r'.sent)
          else Outcome.waiting r',
    )

module _ (r : HttpResponse) (size : length r.out < 2 ^ 31) (sent : r.sent ≤ length r.out) where
  to_size_t-small : to_size_t r.sent ≡ r.sent
  to_size_t-small = let small : ltb r.sent (2 ^ 31) ≡ true = ground arith in rw small refl

  unsent-small : unsent r ≡ length r.out - r.sent
  unsent-small =
      let wrapped : 2 ^ 64 + length r.out - r.sent ≡ 2 ^ 64 + (length r.out - r.sent) =
        omega arith in
      rw to_size_t-small (omega arith)

  is_whole-small : is_whole r ≡ (length r.out == r.sent)
  is_whole-small =
      let small : length r.out % 2 ^ 32 ≡ length r.out = mod-eq_of_lt (omega arith) in rw small refl

-- A write of `n` bytes from the byte `from` on.
abbrev written : ℕ → HttpResponse → ℕ → ℕ → ℕ → Bool → Bool → Bytes × Outcome
written fd r n from sent' done success = (
  take n (drop from r.out),
  if n == 0 || done
      then http_response_cleanup (record r { sent = sent' }) fd success
      else Outcome.waiting (record r { sent = sent' }),
)

http_can_write-plain :
    (fd : ℕ) (r : HttpResponse) (w : WriteResult)
    → length r.out < 2 ^ 31
    → r.sent ≤ length r.out
    → ((m : ℕ) → w ≡ WriteResult.wrote m → m ≤ length r.out - r.sent)
    → http_can_write fd r w ≡ plain_write fd r w
unfolding http_can_write
http_can_write-plain fd r WriteResult.failed size sent hw =
    ap (λ b. ([], http_response_cleanup r fd b)) (is_whole-small r size sent)
http_can_write-plain fd r (WriteResult.wrote n) size sent hw =
    let le : r.sent + n ≤ length r.out = omega (arith, hw n refl) in
    let r' = record r { sent = r.sent + n } in
    let kept : (r.sent + n) % 2 ^ 32 ≡ r.sent + n = mod-eq_of_lt (omega arith) in
    let done : (unsent r' == 0) ≡ (length r.out == (r.sent + n)) =
      ap (λ k. k == 0) (unsent-small r' size le) ∙ ground arith in
    ap
      (λ k.
        written fd r n (to_size_t r.sent) k (unsent (record r { sent = k }) == 0)
          (is_whole (record r { sent = k })))
      kept
    ∙ ap (λ a. written fd r n a (r.sent + n) (unsent r' == 0) (is_whole r'))
        (to_size_t-small r size sent)
    ∙ ap (λ b. written fd r n r.sent (r.sent + n) b (is_whole r')) done
    ∙ ap (written fd r n r.sent (r.sent + n) (length r.out == (r.sent + n)))
        (is_whole-small r' size le)

length-left : (r : HttpResponse) → length (left r) ≡ length r.out - r.sent
length-left r = length-drop r.sent r.out

length-take_le : (xs : Bytes) {n : ℕ} → n ≤ length xs → length (take n xs) ≡ n
length-take_le xs {n} h = omega (arith, length-take n xs)

cleanup-IsInOrder :
    (r : HttpResponse) (fd sent : ℕ) (bs : Bytes) (success : Bool)
    → bs ≡ take (length bs) (left r)
    → (success ≡ true → length (left r) ≤ length bs)
    → (success ≡ false → length bs < length (left r))
    → IsInOrder r fd (bs, http_response_cleanup (record r { sent = sent }) fd success)
unfolding IsInOrder http_response_cleanup
cleanup-IsInOrder r fd sent bs true e h _ = (e ∙ take-all (left r) (h refl), ground arith)
cleanup-IsInOrder r fd sent bs false e _ h = (e, h refl, ground arith)

can_write-IsInOrder :
    (fd : ℕ) (r : HttpResponse) (w : WriteResult)
    → r.sent ≤ length r.out
    → ((m : ℕ) → w ≡ WriteResult.wrote m → m ≤ length r.out - r.sent)
    → IsInOrder r fd (plain_write fd r w)
unfolding IsInOrder
can_write-IsInOrder fd r WriteResult.failed h hw =
    let b = length r.out == r.sent in
    cleanup-IsInOrder r fd r.sent [] b refl (λ e. ground (arith, length-left r))
      (λ e. ground (arith, length-left r))
can_write-IsInOrder fd r (WriteResult.wrote n) h hw =
    let bs : Bytes = take n (left r) in
    let len : length bs ≡ n = length-take_le (left r) (omega (arith, length-left r, hw n refl)) in
    let b = length r.out == (r.sent + n) in
    elim (Bool-cases (n == 0 || b)) [
      | inl e ↦ rw e (
          cleanup-IsInOrder r fd (r.sent + n) bs b (sym (ap (λ k. take k (left r)) len))
            (λ e. ground (arith, length-left r, len))
            (λ e. ground (arith, length-left r, len, hw n refl)))
      | inr e ↦
          rw e (
            ap (λ k. record r { sent = r.sent + k }) (sym len),
            sym (ap (λ k. take k (left r)) len),
          )
    ]

schedule_write-can_write :
    (fd : ℕ) (r : HttpResponse) (w : WriteResult)
    → http_schedule_write true fd r w ≡ http_can_write fd r w
unfolding http_schedule_write
schedule_write-can_write fd r w = ground arith

abbrev after : HttpResponse → Bytes → HttpResponse
after r bs = record r { sent = r.sent + length bs }

append_take :
    (bs more xs : Bytes)
    → bs ≡ take (length bs) xs
    → more ≡ take (length more) (drop (length bs) xs)
    → bs ++ more ≡ take (length (bs ++ more)) xs
append_take bs more xs e e' = sym (
    ap (λ k. take k xs) (length-append bs more)
    ∙ take-add (length bs) (length more) xs
    ∙ sym (ap (λ a. a ++ take (length more) (drop (length bs) xs)) e)
    ∙ sym (ap (λ a. bs ++ a) e'))

join-IsInOrder :
    (r : HttpResponse) (fd : ℕ) (bs more : Bytes) (o : Outcome)
    → bs ≡ take (length bs) (left r)
    → IsInOrder (after r bs) fd (more, o)
    → IsInOrder r fd (bs ++ more, o)
unfolding IsInOrder
join-IsInOrder r fd bs more (Outcome.waiting r') e (same, rest) = (
  same ∙ ap (λ k. record r { sent = k }) (omega (arith, length-append bs more)),
  append_take bs more (left r) e
      (rest ∙ ap (take (length more)) (drop-add r.sent (length bs) r.out)),
)
join-IsInOrder r fd bs more (Outcome.cleaned true closed) e (rest, c) = (
  ap (λ a. bs ++ a) (rest ∙ drop-add r.sent (length bs) r.out)
      ∙ ap (λ a. a ++ drop (length bs) (left r)) e
      ∙ take-append-drop (length bs) (left r),
  c,
)
join-IsInOrder r fd bs more (Outcome.cleaned false closed) e (rest, fewer, c) = (
  append_take bs more (left r) e
      (rest ∙ ap (take (length more)) (drop-add r.sent (length bs) r.out)),
  omega (arith, length-append bs more, length-left r, length-left (after r bs)),
  c,
)

resume-IsInOrder :
    (next : HttpResponse → Bytes × Outcome) (r : HttpResponse) (fd : ℕ) (step : Bytes × Outcome)
    → r.sent ≤ length r.out
    → IsInOrder r fd step
    → ((r' : HttpResponse) → r'.out ≡ r.out → r'.sent ≤ length r'.out → IsInOrder r' fd (next r'))
    → IsInOrder r fd (resume next step)
unfolding IsInOrder
resume-IsInOrder next r fd (bs, Outcome.cleaned true closed) h p rest = p
resume-IsInOrder next r fd (bs, Outcome.cleaned false closed) h p rest = p
resume-IsInOrder next r fd (bs, Outcome.waiting r') h (same, taken) rest =
    let few : length bs ≤ length (left r) =
      omega (arith, ap length taken, length-take (length bs) (left r)) in
    subst (λ r'. IsInOrder r fd (resume next (bs, Outcome.waiting r'))) (sym same)
      (join-IsInOrder r fd bs (next (after r bs)).0 (next (after r bs)).1 taken
        (rest (after r bs) refl (omega (arith, length-left r))))

can_write_all :
    (fd m : ℕ) (r : HttpResponse)
    → length r.out ≡ r.sent + m
    → plain_write fd r (WriteResult.wrote m)
      ≡ (left r, Outcome.cleaned true (not r.keep_alive && ltb 0 fd))
unfolding http_response_cleanup
can_write_all fd m r e =
    let b : (m == 0 || true) ≡ true = ground arith in
    let c : (not r.keep_alive || false) ≡ not r.keep_alive = ground arith in
    rw (
      (==_iff (length r.out) (r.sent + m)).1 e,
      b,
      c,
      take-all (left r) {n = m} (omega (arith, length-left r)),
    )

can_write_some :
    (fd m : ℕ) (r : HttpResponse)
    → 0 < m
    → r.sent + m < length r.out
    → plain_write fd r (WriteResult.wrote m)
      ≡ (take m (left r), Outcome.waiting (record r { sent = r.sent + m }))
unfolding http_response_cleanup
can_write_some fd m r h h' =
    let b : (m == 0 || length r.out == (r.sent + m)) ≡ false = ground arith in rw b

module _ (kernel : Kernel) where
  -- When a response has fewer than 2 ^ 31 bytes, as `sent` is an `int`, and write(2) takes no more
  -- bytes than it is given: the socket gets the bytes that are left of the response in their order,
  -- whatever the number of writes: all of them if the response is cleaned up as a success, and its
  -- descriptor, when it is positive, is closed unless the connection is kept; not all if it is
  -- cleaned up as a failure, and its descriptor, when positive, is closed; and as many as `sent` has
  -- grown by if it waits.
  pub deliver-IsInOrder :
      IsHonest kernel
      → (fuel i fd : ℕ) (r : HttpResponse) → length r.out < 2 ^ 31
      → r.sent ≤ length r.out
      → IsInOrder r fd (deliver kernel fuel i fd r)
  unfolding deliver IsInOrder
  deliver-IsInOrder honest zero i fd r size h =
      (ap (λ k. record r { sent = k }) (sym (add-zero r.sent)), refl)
  deliver-IsInOrder honest (suc fuel) i fd r size h =
      let w = kernel i (unsent r) in
      let few : (m : ℕ) → w ≡ WriteResult.wrote m → m ≤ length r.out - r.sent =
        λ m e. omega (arith, honest i (unsent r) m e, unsent-small r size h) in
      resume-IsInOrder (deliver kernel fuel (suc i) fd) r fd (http_schedule_write true fd r w) h
        (subst (IsInOrder r fd)
          (sym (schedule_write-can_write fd r w ∙ http_can_write-plain fd r w size h few))
          (can_write-IsInOrder fd r w h few))
        (λ r' same. deliver-IsInOrder honest fuel (suc i) fd r' (omega (arith, ap length same)))

  -- When write(2) takes at least one of the bytes that it is given, and no more than those: a
  -- response of fewer than 2 ^ 31 bytes, of which some are left, is sent whole within as many
  -- writes as bytes are left.
  pub deliver-sends_all :
      IsReady kernel
      → (fuel i fd : ℕ) (r : HttpResponse) → length r.out < 2 ^ 31
      → r.sent < length r.out
      → length r.out ≤ r.sent + fuel
      → deliver kernel fuel i fd r ≡ (left r, Outcome.cleaned true (not r.keep_alive && ltb 0 fd))
  unfolding deliver
  deliver-sends_all ready zero i fd r size h hf = ground arith
  deliver-sends_all ready (suc fuel) i fd r size h hf =
      let le : r.sent ≤ length r.out = omega arith in
      let asked = unsent-small r size le in
      let (m, pos, fits, e) = ready i (unsent r) (omega arith) in
      let few : m ≤ length r.out - r.sent = omega arith in
      let r' = record r { sent = r.sent + m } in
      let step : http_schedule_write true fd r (kernel i (unsent r))
          ≡ plain_write fd r (WriteResult.wrote m) =
        ap (http_schedule_write true fd r) e
        ∙ schedule_write-can_write fd r (WriteResult.wrote m)
        ∙ http_can_write-plain fd r (WriteResult.wrote m) size le (λ k same. ground arith) in
      ap (resume (deliver kernel fuel (suc i) fd)) step
      ∙ elim (Bool-cases (length r.out == (r.sent + m))) [
        | inl e1 ↦ rw (can_write_all fd m r ((==_iff (length r.out) (r.sent + m)).0 e1))
        | inr e1 ↦ rw (
          can_write_some fd m r pos (ground arith),
          deliver-sends_all ready fuel (suc i) fd r' size (ground arith) (omega arith),
          drop-add r.sent m r.out,
          take-append-drop m (left r),
        )
      ]
