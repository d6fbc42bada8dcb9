-- ===== src/Http/Delivery.antt =====
-- src/http.c: `http_schedule_write` and `http_can_write`, write by write. The kernel is a parameter:
-- what the call of write(2) with a given number answers, by how many bytes it is asked to take.
use webdis.Http.{HttpResponse}
use webdis.Prelude.{
  ℕ, zero, suc, ◌+◌, ◌-◌, ◌%◌, ◌^◌, ◌≤◌, ◌<◌, ◌≡◌, Bool, true, false, not, ◌&&◌, ◌||◌, [], ◌++◌,
  ltb, ◌==◌, if◌then◌else◌, length, take, drop,
}
use webdis.Prelude.Text.{Bytes}

-- `ret`, negative or not.
pub data WriteResult : Type 0 where
  failed : WriteResult
  wrote : ℕ → WriteResult

abbrev pub Kernel : Type 0
Kernel = ℕ → ℕ → WriteResult

-- What the response's buffer has come to: it waits for the next event, or it is gone.
pub data Outcome : Type 0 where
  waiting : HttpResponse → Outcome
  cleaned : (success closed : Bool) → Outcome

unfoldable pub http_response_cleanup : HttpResponse → ℕ → Bool → Outcome
http_response_cleanup r fd success =
    Outcome.cleaned success ((not r.keep_alive || not success) && ltb 0 fd)

-- `sent` is an `int`, of which the model has the 32 bits: here as a `size_t`.
abbrev pub to_size_t : ℕ → ℕ
to_size_t sent = if ltb sent (2 ^ 31) then sent else 2 ^ 64 - 2 ^ 32 + sent

-- `r->out_sz - r->sent`.
abbrev pub unsent : HttpResponse → ℕ
unsent r = (2 ^ 64 + length r.out - to_size_t r.sent) % 2 ^ 64

-- `(int)r->out_sz == r->sent`.
abbrev pub is_whole : HttpResponse → Bool
is_whole r = length r.out % 2 ^ 32 == r.sent

-- The bytes that the socket takes, and what is next. `ret` is an `int`: write(2) takes fewer than
-- 2 ^ 31 bytes at once. Past the end of the buffer the model has no bytes.
unfoldable pub http_can_write : ℕ → HttpResponse → WriteResult → Bytes × Outcome
unfolding http_response_cleanup
http_can_write fd r WriteResult.failed = ([], http_response_cleanup r fd (is_whole r))
http_can_write fd r (WriteResult.wrote n) =
    let r' = record r { sent = (r.sent + n) % 2 ^ 32 } in
    (
      take n (drop (to_size_t r.sent) r.out),
      if n == 0 || unsent r' == 0
          then http_response_cleanup r' fd (is_whole r')
          else Outcome.waiting r',
    )

-- The event is added, or not; without a worker the first write comes at once.
unfoldable pub http_schedule_write : Bool → ℕ → HttpResponse → WriteResult → Bytes × Outcome
unfolding http_can_write http_response_cleanup
http_schedule_write added fd r w =
    if r.has_worker && not added
    then ([], http_response_cleanup r fd false)
    else http_can_write fd r w

abbrev pub resume : (HttpResponse → Bytes × Outcome) → Bytes × Outcome → Bytes × Outcome
resume next (bs, Outcome.cleaned success closed) = (bs, Outcome.cleaned success closed)
resume next (bs, Outcome.waiting r) = let (more, last) = next r in (bs ++ more, last)

-- At most `fuel` writes, the first of them with number `i`.
unfoldable pub deliver : Kernel → ℕ → ℕ → ℕ → HttpResponse → Bytes × Outcome
unfolding http_schedule_write
deliver kernel zero i fd r = ([], Outcome.waiting r)
deliver kernel (suc fuel) i fd r =
    resume (deliver kernel fuel (suc i) fd) (http_schedule_write true fd r (kernel i (unsent r)))

-- write(2) takes no more bytes than it is given.
abbrev pub IsHonest : Kernel → Type 0
IsHonest kernel = (i n m : ℕ) → kernel i n ≡ WriteResult.wrote m → m ≤ n

-- write(2) takes at least one byte of those that it is given.
abbrev pub IsReady : Kernel → Type 0
IsReady kernel =
    (i n : ℕ) → 0 < n → (m : ℕ) × (0 < m) × (m ≤ n) × (kernel i n ≡ WriteResult.wrote m)

abbrev pub left : HttpResponse → Bytes
left r = drop r.sent r.out

-- The bytes are the first of those that are left. All of them are sent when the response succeeds;
-- the descriptor is closed then unless the connection is kept. Some are not when it fails or waits.
unfoldable pub IsInOrder : HttpResponse → ℕ → Bytes × Outcome → Type 0
IsInOrder r fd (bs, Outcome.waiting r') =
    (r' ≡ record r { sent = r.sent + length bs }) × (bs ≡ take (length bs) (left r))
IsInOrder r fd (bs, Outcome.cleaned true closed) =
    (bs ≡ left r) × (closed ≡ (not r.keep_alive && ltb 0 fd))
IsInOrder r fd (bs, Outcome.cleaned false closed) =
    (bs ≡ take (length bs) (left r)) × (length bs < length (left r)) × (closed ≡ ltb 0 fd)
