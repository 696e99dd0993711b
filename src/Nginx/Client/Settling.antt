-- ===== src/Nginx/Client/Settling.antt =====
-- What ends a call of `doRequest` in internal/adapters/loadbalancer/nginx/client.go, and what is worth
-- another attempt.
use mlb_controller.Base.{
  if◌then◌else◌, ℕ, zero, suc, ◌≤◌, ◌<◌, ◌≡◌, ◌≢◌, refl, sym, [], ◌∷◌, length, leb, ap, ◌∙◌, ◌⊎◌,
  inl, inr, Bool, false, Str, arith, Bool-cases, ◌==◌, nat_eq, nat_beq_iff,
}
use mlb_controller.Nginx.Client.{
  Body, whole, broken, take, error_limit, status_error, read_failed, do_error, error, Outcome,
  response, failed, redirect_failed, Response, Decision, done, again, Reply, bytes, ClientError,
  decide, refused, read_all, read_body, body_limit, is_client_error,
}

abbrev pub ten_mib : ℕ
ten_mib = 10485760

abbrev content : Body → Str
content (whole s) = s
content (broken s) = s

-- The reply to a body: its first 10 MiB, or an error where it broke off before.
abbrev pub ReadsAs : Body → Reply → Type 0
ReadsAs (whole s) r = r ≡ bytes (take ten_mib s)
ReadsAs (broken s) r =
    ((ten_mib ≤ length s) × (r ≡ bytes (take ten_mib s)))
    ⊎ ((length s < ten_mib) × (r ≡ error read_failed))

-- A status of the range 4xx other than 429, which is the reply.
abbrev IsRefusal : Response → Reply → Type 0
IsRefusal x r =
    (400 ≤ x.status_code)
    × (x.status_code < 500)
    × (x.status_code ≢ 429)
    × (r ≡ error (status_error x.status_code (take 1048576 (content x.body))))

-- What comes back ends the call with a reply.
abbrev pub Settles : Outcome → Reply → Type 0
Settles (response x) r = ((x.status_code ≡ 200) × ReadsAs x.body r) ⊎ IsRefusal x r
Settles (failed e) r = ⊥
Settles (redirect_failed x e) r = IsRefusal x r

abbrev IsTransient : ℕ → Type 0
IsTransient status = (status < 400) ⊎ (500 ≤ status) ⊎ (status ≡ 429)

-- What comes back is worth another attempt.
abbrev pub IsRetriable : Outcome → Type 0
IsRetriable (response x) = (x.status_code ≢ 200) × IsTransient x.status_code
IsRetriable (failed e) = Unit
IsRetriable (redirect_failed x e) = IsTransient x.status_code

-- A response that a call can take its reply from.
abbrev pub Answers : Outcome → Str → Type 0
Answers (response x) s = (x.status_code ≡ 200) × ReadsAs x.body (bytes s)
Answers (failed e) s = ⊥
Answers (redirect_failed x e) s = ⊥

length-take : (n : ℕ) (s : Str) → length (take n s) ≤ n
unfolding take
length-take zero s = omega arith
length-take (suc n) [] = omega arith
length-take (suc n) (c ∷ s) = omega (arith, length-take n s)

read_all-content : (n : ℕ) (b : Body) → (read_all n b).0 ≡ take n (content b)
unfolding read_all
read_all-content n (whole s) = refl
read_all-content n (broken s) = refl

broken-long :
    (n : ℕ) (s : Str) → n ≤ length s → read_body (read_all n (broken s)) ≡ bytes (take n s)
unfolding read_all read_body
broken-long n s l = ground (arith, l)

broken-short :
    (n : ℕ) (s : Str) → length s < n → read_body (read_all n (broken s)) ≡ error read_failed
unfolding read_all read_body
broken-short n s l = ground (arith, l)

ReadsAs-read_body : (b : Body) (r : Reply) → ReadsAs b r → read_body (read_all body_limit b) ≡ r
unfolding read_all read_body
ReadsAs-read_body (whole s) r h = sym h
ReadsAs-read_body (broken s) r (inl (l, h)) = broken-long body_limit s l ∙ sym h
ReadsAs-read_body (broken s) r (inr (l, h)) = broken-short body_limit s l ∙ sym h

broken-bytes :
    (n : ℕ) (u s : Str)
    → read_body (read_all n (broken u)) ≡ bytes s
    → (n ≤ length u) × (bytes s ≡ bytes (take n u))
unfolding read_all read_body
broken-bytes n u s h = elim (Bool-cases (leb n (length u))) [
  | inl t ↦ (ground (arith, t), sym h ∙ rw t refl)
  | inr f ↦ absurd (ground (arith, f, h))
]

read_body-ReadsAs :
    (b : Body) (s : Str) → read_body (read_all body_limit b) ≡ bytes s → ReadsAs b (bytes s)
unfolding read_all read_body
read_body-ReadsAs (whole u) s h = sym h
read_body-ReadsAs (broken u) s h = inl (broken-bytes body_limit u s h)

IsRefusal-refused : (x : Response) (r : Reply) → IsRefusal x r → refused x ≡ done r
unfolding refused is_client_error
IsRefusal-refused x r (l, u, n, h) =
    rw (h, read_all-content error_limit x.body) (ground (arith, l, u, n))

not_ok : (b : Bool) → b ≡ false → (p q : Decision) → (if b then p else q) ≡ q
not_ok b f p q = rw f refl

pub Settles-decide : (o : Outcome) (r : Reply) → Settles o r → decide o ≡ done r
unfolding decide
Settles-decide (response x) r (inl (e, h)) = rw e (ap done (ReadsAs-read_body x.body r h))
Settles-decide (response x) r (inr h) =
    not_ok (x.status_code == 200) (ground (arith, h.0))
      (done (read_body (read_all body_limit x.body))) (refused x)
    ∙ IsRefusal-refused x r h
Settles-decide (failed e) r h = absurd h
Settles-decide (redirect_failed x e) r h = IsRefusal-refused x r h

IsTransient-refused :
    (x : Response) → IsTransient x.status_code → (e : ClientError) × (refused x ≡ again e)
unfolding refused is_client_error
IsTransient-refused x h =
    (status_error x.status_code (read_all error_limit x.body).0, ground (arith, h))

pub IsRetriable-decide : (o : Outcome) → IsRetriable o → (e : ClientError) × (decide o ≡ again e)
unfolding decide
IsRetriable-decide (response x) (n, h) =
    let (e, q) = IsTransient-refused x h in
    (
      e,
      not_ok (x.status_code == 200) (ground (arith, n))
            (done (read_body (read_all body_limit x.body))) (refused x)
          ∙ q,
    )
IsRetriable-decide (failed e) h = (do_error e, refl)
IsRetriable-decide (redirect_failed x e) h = IsTransient-refused x h

refused-bytes : (r : Response) (s : Str) → refused r ≡ done (bytes s) → ⊥
unfolding refused
refused-bytes r s h = elim (Bool-cases (is_client_error r.status_code)) [
  | inl t ↦ ground arith
  | inr f ↦ ground arith
]

pub decide-bytes : (o : Outcome) (s : Str) → decide o ≡ done (bytes s) → Answers o s
unfolding decide
decide-bytes (response r) s h = elim (Bool-cases (r.status_code == 200)) [
  | inl t ↦
      ((nat_beq_iff r.status_code 200).0 t, read_body-ReadsAs r.body s (injective (rw t at h)))
  | inr f ↦ absurd (refused-bytes r s (rw f at h))
]
  where
    injective : {u v : Reply} → done u ≡ done v → u ≡ v
    injective q = cc
decide-bytes (failed e) s h = absurd cc
decide-bytes (redirect_failed r e) s h = refused-bytes r s h

pub Answers-length : (o : Outcome) (s : Str) → Answers o s → length s ≤ ten_mib
Answers-length (response x) s (e, h) = go x.body h
  where
    go : (b : Body) → ReadsAs b (bytes s) → length s ≤ ten_mib
    go (whole u) q = ground (arith, q, length-take ten_mib u)
    go (broken u) (inl (l, q)) = ground (arith, q, length-take ten_mib u)
    go (broken u) (inr (l, q)) = absurd (ground (arith, q))
Answers-length (failed e) s h = absurd h
Answers-length (redirect_failed x e) s h = absurd h
