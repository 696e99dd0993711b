-- ===== src/Nginx/Client/Laws.antt =====
-- How a call of `doRequest` ends: the retries are bounded, and the first attempt that is not to be
-- tried again decides.
use mlb_controller.Base.{
  ℕ, zero, suc, ◌+◌, ◌-◌, ◌*◌, ◌^◌, ◌≤◌, ◌<◌, ◌≡◌, refl, length, ap, ◌∙◌, ◌⊎◌, inl, inr, true,
  false, Str, arith, Bool-cases, nat_eq,
}
use mlb_controller.Nginx.Client.{
  Http, Decision, done, again, Reply, bytes, ClientError, decide, attempts, backoff, after_wait,
  NginxClient, HttpRequest, do_request, new_request, nil_error,
}
use mlb_controller.Nginx.Client.Settling.{
  ten_mib, Settles, IsRetriable, Answers, Settles-decide, IsRetriable-decide, decide-bytes,
  Answers-length,
}

-- The waits after the attempts `i`, ..., `i + k - 1`.
abbrev pub total_backoff : ℕ → ℕ → ℕ
total_backoff i zero = 0
total_backoff i (suc k) = backoff i + total_backoff (suc i) k

Decision-cases : (d : Decision) → ((r : Reply) × (d ≡ done r)) ⊎ ((e : ClientError) × (d ≡ again e))
Decision-cases (done r) = inl (r, refl)
Decision-cases (again e) = inr (e, refl)

-- A call sends at most as many requests as it has rounds, and waits no longer than after all of them.
attempts_bounded :
    (http : Http) (rounds i : ℕ) (last : ClientError)
    → ((attempts http rounds i last).requests ≤ rounds)
      × ((attempts http rounds i last).waited ≤ total_backoff i rounds)
unfolding attempts
attempts_bounded http zero i last = (omega arith, omega arith)
attempts_bounded http (suc rounds) i last = elim (Bool-cases http.accepts) [
  | inr f ↦ (ground arith, ground arith)
  | inl t ↦ elim (Decision-cases (decide (http.attempt i))) [
    | inl (r, d) ↦ (ground arith, ground arith)
    | inr (e, d) ↦ elim (Bool-cases (http.cancelled i)) [
      | inl c ↦ (ground arith, ground arith)
      | inr g ↦
          let ih = attempts_bounded http rounds (suc i) e in
          (ground (arith, ih.0), ground (arith, ih.1))
    ]
  ]
]

-- The attempts `i`, ..., `i + k - 1` are to be tried again, and no wait is broken off.
abbrev pub AreRetried : Http → ℕ → ℕ → Type 0
AreRetried http i zero = Unit
AreRetried http i (suc k) =
    IsRetriable (http.attempt i) × (http.cancelled i ≡ false) × AreRetried http (suc i) k

module _ (http : Http) (accepts : http.accepts ≡ true) where
  attempt_decided :
      (m i : ℕ) (last : ClientError) (r : Reply)
      → decide (http.attempt i) ≡ done r
      → attempts http (suc m) i last ≡ record { reply = r; requests = 1; waited = 0 }
  unfolding attempts
  attempt_decided m i last r d = ground arith

  attempt_retried :
      (m i : ℕ) (last e : ClientError)
      → decide (http.attempt i) ≡ again e
      → http.cancelled i ≡ false
      → attempts http (suc m) i last ≡ after_wait i (attempts http m (suc i) e)
  unfolding attempts
  attempt_retried m i last e d c = ground arith

  attempts_decided :
      (rounds k i j : ℕ) (last : ClientError) (r : Reply)
      → k < rounds
      → j ≡ i + k
      → AreRetried http i k
      → decide (http.attempt j) ≡ done r
      → attempts http rounds i last
        ≡ record { reply = r; requests = suc k; waited = total_backoff i k }
  attempts_decided zero k i j last r l e h d = elim l [ ]
  attempts_decided (suc m) zero i j last r l e h d =
      attempt_decided m i last r (ap (λ n. decide (http.attempt n)) (omega arith) ∙ d)
  attempts_decided (suc m) (suc k) i j last r l e h d =
      attempt_retried m i last (IsRetriable-decide (http.attempt i) h.0).0
        (IsRetriable-decide (http.attempt i) h.0).1 h.1
      ∙ ap (after_wait i) (
          attempts_decided m k (suc i) j (IsRetriable-decide (http.attempt i) h.0).0 r (omega arith)
            (omega arith) h.2 d)

attempts_sound :
    (http : Http) (rounds i : ℕ) (last : ClientError) (s : Str)
    → (attempts http rounds i last).reply ≡ bytes s
    → (j : ℕ) × (j < i + rounds) × Answers (http.attempt j) s
unfolding attempts
attempts_sound http zero i last s h = absurd cc
attempts_sound http (suc rounds) i last s h = elim (Bool-cases http.accepts) [
  | inr f ↦ absurd (ground arith)
  | inl t ↦ elim (Decision-cases (decide (http.attempt i))) [
    | inl (r, d) ↦ (i, omega arith, decide-bytes (http.attempt i) s (d ∙ ap done (ground arith)))
    | inr (e, d) ↦ elim (Bool-cases (http.cancelled i)) [
      | inl c ↦ absurd (ground arith)
      | inr g ↦
          let (j, l, a) = attempts_sound http rounds (suc i) e s (ground arith) in
          (j, omega arith, a)
    ]
  ]
]

-- A call of `doRequest` always ends: it sends at most three requests and waits at most 700
-- milliseconds between them, whatever comes back and whenever the context ends.
pub do_request_bounded :
    (world : HttpRequest → Http) (client : NginxClient) (method path : Str)
    → ((do_request world client method path).requests ≤ 3)
      × ((do_request world client method path).waited ≤ 700)
unfolding do_request
do_request_bounded world client method path =
    attempts_bounded (world (new_request client method path)) 3 0 nil_error

-- A reply without an error comes from a response with status 200 to one of the three requests. It has
-- the first 10 MiB of the body, and nothing else: the body was whole, or it broke off no sooner than
-- there.
pub do_request_sound :
    (world : HttpRequest → Http) (client : NginxClient) (method path s : Str)
    → (do_request world client method path).reply ≡ bytes s
    → (length s ≤ ten_mib)
      × ((j : ℕ) × (j < 3) × Answers ((world (new_request client method path)).attempt j) s)
unfolding do_request
do_request_sound world client method path s h =
    let (j, l, a) = attempts_sound (world (new_request client method path)) 3 0 nil_error s h in
    (Answers-length ((world (new_request client method path)).attempt j) s a, (j, l, a))

backoff_sum : (k : ℕ) → k < 3 → total_backoff 0 k ≡ 100 * (2 ^ k - 1)
backoff_sum zero l = refl
backoff_sum (suc zero) l = refl
backoff_sum (suc (suc zero)) l = refl
backoff_sum (suc (suc (suc k))) l = absurd (omega arith)

-- Let the request be well formed, and let each of the first `k` attempts, fewer than three, fail, with
-- an error or a status other than 200, where the status of a response is outside 4xx or is 429, and let
-- no wait after them be broken off. Then a next attempt that gets status 200 without an error, or a
-- status of the range 4xx other than 429, ends the call: the reply is the first 10 MiB of the body, an
-- error where the body broke off before, or the error with the status and the first MiB of the body;
-- `k + 1` requests are sent and 100 * (2 ^ k - 1) milliseconds waited.
pub do_request_decided :
    (world : HttpRequest → Http) (client : NginxClient) (method path : Str) (k : ℕ) (r : Reply)
    → (world (new_request client method path)).accepts ≡ true
    → k < 3
    → AreRetried (world (new_request client method path)) 0 k
    → Settles ((world (new_request client method path)).attempt k) r
    → do_request world client method path
      ≡ record { reply = r; requests = suc k; waited = 100 * (2 ^ k - 1) }
unfolding do_request
do_request_decided world client method path k r a l h d =
    attempts_decided (world (new_request client method path)) a 3 k 0 k nil_error r l (omega arith)
      h (Settles-decide ((world (new_request client method path)).attempt k) r d)
    ∙ ap (λ w. record { reply = r; requests = suc k; waited = w }) (backoff_sum k l)
