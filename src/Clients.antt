-- ===== src/Clients.antt =====
-- internal/turnstile/client.go and internal/firebaseappcheck: the clients of the upstream services. The
-- HTTP client, Go's encodings, the signer of tokens and the source of access tokens are parameters.
pub mod Turnstile
pub mod Firebase
pub mod Granted
use turnstile_appcheck_gatew.Prelude.{ℕ, String, List, Option}

-- a request of a client; its body is a form, by name in order, or a text
pub data Content : Type 0 where
  form : List (String × String) → Content
  text : String → Content

pub record Post : Type 0 where
  pub url : String
  pub headers : List (String × String)
  pub content : Content

-- the status, and what io.ReadAll makes of the body; none is an error
pub record Reply : Type 0 where
  pub status_code : ℕ
  pub body : Option String

-- http.NewRequestWithContext takes the URL, and httpClient.Do may answer
pub record HttpClient : Type 0 where
  pub takes_url : String → Option String
  pub send : Post → Option Reply
