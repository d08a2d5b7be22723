-- ===== src/Clients/Firebase.antt =====
-- internal/firebaseappcheck: the custom token, and the client that exchanges it for an App Check token.
use Prim.Native.String.{◌++◌}
use turnstile_appcheck_gatew.Prelude.{
  ℕ, suc, ◌+◌, ◌-◌, ◌*◌, ◌/◌, String, Bool, ◌||◌, [], ◌∷◌, Option, none, some, ◌==◌, if◌then◌else◌,
  ltb, eqb, ℤ, pos, negsuc, ◌+ℤ◌, ◌-ℤ◌,
}
use turnstile_appcheck_gatew.Prelude.Results.{Result, ok, err, ◌>>=◌, ◌>>◌, or_err, refuse_if}
use turnstile_appcheck_gatew.GoStrings.{trim_space, slice_to, decimal}
use turnstile_appcheck_gatew.Handlers.Exchange.{ExchangeResult}
use turnstile_appcheck_gatew.Clients.{text, Post, HttpClient}
use turnstile_appcheck_gatew.Clients.Turnstile.{body_limit}

pub record FirebaseClient : Type 0 where
  pub private_key_email : String
  pub app_resource : String
  pub app_id : String
  pub ttl_millis : Option ℕ

pub data ExchangeError : Type 0 where
  missing : String → ExchangeError
  sign_failed : ExchangeError
  no_access_token : ExchangeError
  marshal_failed : ExchangeError
  create_failed : ExchangeError
  request_failed : ExchangeError
  read_failed : ExchangeError
  bad_status : ℕ → String → ExchangeError
  parse_failed : ExchangeError
  no_token : ExchangeError
  bad_ttl : ExchangeError

-- NewClient, with an HTTP client, a token source and a key
unfoldable pub new_client :
    String → String → String → Option ℕ → Result ExchangeError FirebaseClient
new_client email resource app ttl = do
  refuse_if (trim_space email == "") (missing "service account email")
  refuse_if (trim_space resource == "") (missing "app resource")
  refuse_if (trim_space app == "") (missing "app id")
  ok (record {
    private_key_email = trim_space email;
    app_resource = trim_space resource;
    app_id = trim_space app;
    ttl_millis = ttl;
  })

-- millisecondsToDurationString, for a number that is not below 0; %09d of whole milliseconds, which
-- are below a second, is three digits and six zeros
unfoldable pub milliseconds_to_duration_string : ℕ → String
milliseconds_to_duration_string ms =
    let seconds = ms / 1000 in
    let rest = ms - seconds * 1000 in
    let padding = if ltb rest 10 then "00" else if ltb rest 100 then "0" else "" in
    if eqb (rest * 1000000) 0
    then decimal seconds ++ "s"
    else decimal seconds ++ ("." ++ (padding ++ (decimal rest ++ "000000s")))

-- the claims of the custom token; times are Unix seconds
pub record Claims : Type 0 where
  pub iss : String
  pub sub : String
  pub app_id : String
  pub aud : String
  pub exp : ℕ
  pub iat : ℕ
  pub ttl : Option String

-- BuildCustomToken before it is signed, with a key
unfoldable pub custom_claims : String → String → ℕ → Option ℕ → Result ExchangeError Claims
unfolding milliseconds_to_duration_string
custom_claims email app iat ttl = do
  refuse_if (email == "") (missing "service account email")
  refuse_if (app == "") (missing "app id")
  ok (record {
    iss = email;
    sub = email;
    app_id = app;
    aud =
        "https://firebaseappcheck.googleapis.com/google.firebase.appcheck.v1.TokenExchangeService";
    exp = iat + 5 * 60;
    iat = iat;
    ttl = elim ttl [ none ↦ none | some ms ↦ some (milliseconds_to_duration_string ms) ];
  })

-- exchangeResponse
pub record ExchangeReply : Type 0 where
  pub token : String
  pub ttl : String

-- The signer, the source of access tokens, the encodings of the two bodies, time.ParseDuration, the
-- reader of an error's message, which is none if the body is not JSON, and of a token's `exp` claim as
-- a whole number.
pub record FirebaseParts : Type 0 where
  pub sign : Claims → Option String
  pub access_token : Option String
  pub print_request : String → Bool → Option String
  pub parse_reply : String → Option ExchangeReply
  pub parse_error : String → Option String
  pub parse_duration : String → Option ℤ
  pub token_exp : String → Option ℤ

-- d.Milliseconds(), which rounds towards 0
unfoldable pub milliseconds : ℤ → ℤ
milliseconds (pos n) = pos (n / 1000000)
milliseconds (negsuc n) = pos 0 -ℤ pos (suc n / 1000000)

unfoldable pub parse_duration_to_millis : FirebaseParts → String → Option ℤ
unfolding milliseconds
parse_duration_to_millis parts duration = elim (parts.parse_duration duration) [
  | none ↦ none
  | some d ↦ some (milliseconds d)
]

-- parseJWTExpireTimeMillis
unfoldable pub parse_jwt_expire_time_millis : FirebaseParts → String → Option ℤ
parse_jwt_expire_time_millis parts token = elim (parts.token_exp token) [
  | none ↦ none
  | some (pos n) ↦ some (pos (n * 1000))
  | some (negsuc n) ↦ some (pos 0 -ℤ pos (suc n * 1000))
]

unfoldable pub parse_google_api_error : FirebaseParts → String → String
parse_google_api_error parts body = elim (parts.parse_error body) [
  | none ↦ trim_space body
  | some message ↦ trim_space message
]

-- the message of a refusal
error_message : String → String
error_message api = if api == "" then "firebase exchange failed" else api

unfoldable pub exchange_url : FirebaseClient → String
exchange_url c =
    "https://firebaseappcheck.googleapis.com/v1/" ++ (c.app_resource ++ ":exchangeCustomToken")

unfoldable pub exchange_post : String → String → String → Post
exchange_post url access payload = record {
  url = url;
  headers =
      ("Authorization", "Bearer " ++ access)
      ∷ ("Content-Type", "application/json")
      ∷ ("Accept", "application/json")
      ∷ [];
  content = text payload;
}

-- the result by the token's own expiry, or with a ttl that parses; `now` is in milliseconds
unfoldable pub by_expiry : ℤ → String → Option ℤ → Result ExchangeError ExchangeResult
by_expiry now token none = err bad_ttl
by_expiry now token (some exp) =
    ok (record { token = token; expire_time_millis = exp; ttl_millis = exp -ℤ now })

unfoldable pub by_ttl : FirebaseParts → ℤ → String → Option ℤ → Result ExchangeError ExchangeResult
unfolding by_expiry parse_jwt_expire_time_millis
by_ttl parts now token none = by_expiry now token (parse_jwt_expire_time_millis parts token)
by_ttl parts now token (some ttl) =
    ok (record { token = token; expire_time_millis = now +ℤ ttl; ttl_millis = ttl })

module _ (http : HttpClient) (parts : FirebaseParts) where
  -- Client.Exchange; `iat` and `now` are the two readings of the clock, in seconds and in milliseconds
  unfoldable pub exchange : FirebaseClient → ℕ → ℤ → Bool → Result ExchangeError ExchangeResult
  unfolding custom_claims exchange_url exchange_post by_ttl error_message parse_duration_to_millis
      parse_google_api_error
  exchange c iat now limited_use = do
    claims ← custom_claims c.private_key_email c.app_id iat c.ttl_millis
    custom_token ← or_err (parts.sign claims) sign_failed
    access ← or_err parts.access_token no_access_token
    payload ← or_err (parts.print_request custom_token limited_use) marshal_failed
    url ← or_err (http.takes_url (exchange_url c)) create_failed
    reply ← or_err (http.send (exchange_post url access payload)) request_failed
    body ← or_err reply.body read_failed
    let read = slice_to body body_limit
    refuse_if (ltb reply.status_code 200 || ltb 299 reply.status_code)
        (bad_status reply.status_code (error_message (parse_google_api_error parts read)))
    parsed ← or_err (parts.parse_reply read) parse_failed
    refuse_if (trim_space parsed.token == "") no_token
    by_ttl parts now parsed.token (parse_duration_to_millis parts parsed.ttl)
