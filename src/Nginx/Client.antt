-- ===== src/Nginx/Client.antt =====
-- internal/adapters/loadbalancer/nginx/client.go: `doRequest` and `NewNginxClientSet`.
pub mod Settling
pub mod Laws
use mlb_controller.Base.{
  ℕ, zero, suc, ◌+◌, ◌*◌, ◌^◌, Bool, true, false, not, ◌&&◌, ◌||◌, List, [], ◌∷◌, ◌++◌, Option,
  none, some, Str, codes, ℤ, ◌==◌, nat_eq, str_eq, leb, ltb, if◌then◌else◌, length, is_empty,
}
use mlb_controller.Base.Text.{trim_prefix}

-- The TLS settings of the transport that the clients share.
pub record Transport : Type 0 where
  pub server_name : Str
  pub certificate : Option (List Str)
  pub root_cas : Option Str

-- What a body yields before it ends, or before reading it fails.
pub data Body : Type 0 where
  whole : Str → Body
  broken : Str → Body

pub record Response : Type 0 where
  pub status_code : ℕ
  pub body : Body

-- What `http.Client.Do` returns: a response, an error, or both, which it does where following a
-- redirect fails.
pub data Outcome : Type 0 where
  response : Response → Outcome
  failed : Str → Outcome
  redirect_failed : Response → Str → Outcome

pub data ClientError : Type 0 where
  create_failed : ClientError
  read_failed : ClientError
  status_error : ℕ → Str → ClientError
  do_error : Str → ClientError
  context_done : ClientError
  -- The nil error that `lastErr` starts with.
  nil_error : ClientError
  exhausted : ClientError → ClientError

pub data Reply : Type 0 where
  bytes : Str → Reply
  error : ClientError → Reply

-- The world of one call: whether `http.NewRequestWithContext` accepts the method and the URL, what
-- comes back at each attempt, and whether the context ends during the wait after an attempt.
pub record Http : Type 0 where
  pub accepts : Bool
  pub attempt : ℕ → Outcome
  pub cancelled : ℕ → Bool

abbrev pub max_retries : ℕ
max_retries = 3

unfoldable pub take : ℕ → Str → Str
take zero s = []
take (suc n) [] = []
take (suc n) (c ∷ s) = c ∷ take n s

-- io.ReadAll(io.LimitReader(body, limit)): the bytes, and whether reading ended without an error.
unfoldable pub read_all : ℕ → Body → Str × Bool
unfolding take
read_all limit (whole s) = (take limit s, true)
read_all limit (broken s) = (take limit s, leb limit (length s))

abbrev pub body_limit : ℕ
body_limit = 10 * 1024 * 1024

abbrev pub error_limit : ℕ
error_limit = 1024 * 1024

-- The reply to a response with status 200.
unfoldable pub read_body : Str × Bool → Reply
read_body (s, true) = bytes s
read_body (s, false) = error read_failed

-- Status 4xx, but for 429.
unfoldable pub is_client_error : ℕ → Bool
is_client_error status = leb 400 status && ltb status 500 && not (status == 429)

-- What an attempt decides: the reply of the call, or the error to remember for the next attempt.
pub data Decision : Type 0 where
  done : Reply → Decision
  again : ClientError → Decision

-- The branch `resp != nil` of a failed attempt.
unfoldable pub refused : Response → Decision
unfolding read_all is_client_error
refused r =
    let e = status_error r.status_code (read_all error_limit r.body).0 in
    if is_client_error r.status_code then done (error e) else again e

unfoldable pub decide : Outcome → Decision
unfolding refused read_body read_all
decide (response r) =
    if r.status_code == 200 then done (read_body (read_all body_limit r.body)) else refused r
decide (failed e) = again (do_error e)
decide (redirect_failed r e) = refused r

-- How a call goes: the reply, the number of requests sent and the milliseconds waited.
pub record Run : Type 0 where
  pub reply : Reply
  pub requests : ℕ
  pub waited : ℕ

-- The wait after attempt `i`, unless the context ends.
abbrev pub backoff : ℕ → ℕ
backoff i = 100 * 2 ^ i

abbrev after_wait : ℕ → Run → Run
after_wait i r = record r { requests = suc r.requests; waited = backoff i + r.waited }

-- The loop with `rounds` rounds left, before attempt `i`.
unfoldable pub attempts : Http → ℕ → ℕ → ClientError → Run
unfolding decide
attempts http zero i last = record { reply = error (exhausted last); requests = 0; waited = 0 }
attempts http (suc rounds) i last = elim (http.accepts) [
  | false ↦ record { reply = error create_failed; requests = 0; waited = 0 }
  | true ↦ elim (decide (http.attempt i)) [
    | done r ↦ record { reply = r; requests = 1; waited = 0 }
    | again e ↦ elim (http.cancelled i) [
      | true ↦ record { reply = error context_done; requests = 1; waited = 0 }
      | false ↦ after_wait i (attempts http rounds (suc i) e)
    ]
  ]
]

-- fmt.Sprintf("%s/%s", c.baseURL, strings.TrimPrefix(path, "/"))
unfoldable pub request_url : Str → Str → Str
unfolding trim_prefix
request_url base_url path = base_url ++ (b'/' ∷ trim_prefix path (codes "/"))

-- The request that every attempt sends; `host` is set where the client has a host name.
pub record HttpRequest : Type 0 where
  pub method : Str
  pub url : Str
  pub host : Option Str

pub record NginxClient : Type 0 where
  pub base_url : Str
  pub host : Str
  pub timeout : ℤ
  pub transport : Transport

unfoldable pub new_request : NginxClient → Str → Str → HttpRequest
unfolding request_url
new_request client method path = record {
  method = method;
  url = request_url client.base_url path;
  host = if client.host == [] then none else some client.host;
}

unfoldable pub do_request : (HttpRequest → Http) → NginxClient → Str → Str → Run
unfolding attempts new_request
do_request world client method path =
    attempts (world (new_request client method path)) max_retries 0 nil_error
