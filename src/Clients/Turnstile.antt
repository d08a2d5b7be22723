-- ===== src/Clients/Turnstile.antt =====
-- internal/turnstile/client.go: the client of Siteverify.
use turnstile_appcheck_gatew.Prelude.{
  ℕ, ◌^◌, String, ◌||◌, List, [], ◌∷◌, Option, ◌==◌, if◌then◌else◌, ltb,
}
use turnstile_appcheck_gatew.Prelude.Results.{Result, ok, ◌>>=◌, ◌>>◌, or_err, refuse_if}
use turnstile_appcheck_gatew.GoStrings.{trim_space, slice_to}
use turnstile_appcheck_gatew.Http.{VerifyRequest}
use turnstile_appcheck_gatew.Handlers.Exchange.{VerifyResponse}
use turnstile_appcheck_gatew.Clients.{form, Post, HttpClient}

pub record TurnstileClient : Type 0 where
  pub secret_key : String
  pub verify_url : String

pub data ClientError : Type 0 where
  missing : String → ClientError
  create_failed : ClientError
  request_failed : ClientError
  read_failed : ClientError
  parse_failed : ClientError
  bad_status : ℕ → ClientError

-- NewClient, with an HTTP client
unfoldable pub new_client : String → String → Result ClientError TurnstileClient
new_client secret_key verify_url = do
  refuse_if (trim_space secret_key == "") (missing "turnstile secret key")
  refuse_if (trim_space verify_url == "") (missing "turnstile verify url")
  ok (record { secret_key = trim_space secret_key; verify_url = trim_space verify_url })

-- the values of the form, by name
unfoldable pub verify_form : TurnstileClient → VerifyRequest → List (String × String)
verify_form c req =
    let ip = trim_space req.remote_ip in
    let rest = ("response", req.token) ∷ ("secret", c.secret_key) ∷ [] in
    if ip == "" then rest else ("remoteip", ip) ∷ rest

unfoldable pub verify_post : TurnstileClient → VerifyRequest → Post
unfolding verify_form
verify_post c req = record {
  url = c.verify_url;
  headers =
      ("Content-Type", "application/x-www-form-urlencoded") ∷ ("Accept", "application/json") ∷ [];
  content = form (verify_form c req);
}

-- what io.LimitReader lets through
abbrev pub body_limit : ℕ
body_limit = 2 ^ 20

module _ (http : HttpClient) (parse : String → Option VerifyResponse) where
  -- Client.Verify, where `parse` is json.Unmarshal
  unfoldable pub verify : TurnstileClient → VerifyRequest → Result ClientError VerifyResponse
  unfolding verify_post
  verify c req = do
    refuse_if (trim_space req.token == "") (missing "token")
    url ← or_err (http.takes_url c.verify_url) create_failed
    reply ← or_err (http.send (record (verify_post c req) { url = url })) request_failed
    body ← or_err reply.body read_failed
    parsed ← or_err (parse (slice_to body body_limit)) parse_failed
    refuse_if (ltb reply.status_code 200 || ltb 299 reply.status_code)
        (bad_status reply.status_code)
    ok parsed
