-- ===== src/Handlers/Request.antt =====
-- internal/handlers/helpers.go: reading the request. The JSON decoder and the parsers of addresses
-- of Go's `encoding/json` and `net` are parameters.
use turnstile_appcheck_gatew.Prelude.{
  ℕ, String, Bool, false, List, [], ◌∷◌, Option, none, some, ◌==◌, if◌then◌else◌, ◌^◌,
}
use turnstile_appcheck_gatew.GoStrings.{has_prefix, to_lower, trim_space, split_byte, slice_to}
use turnstile_appcheck_gatew.Http.{Request, get_header}

-- model.ExchangeRequest
pub record ExchangeRequest : Type 0 where
  pub turnstile_token : String
  pub limited_use : Bool

-- What the second call of `Decode`, which reads past the first value, comes to.
pub data Rest : Type 0 where
  eof another_value broken : Rest

-- `json.Decoder` with `DisallowUnknownFields`, over the text that it reads: the first value, or
-- none on an error, and what follows that value.
pub record JsonDecoder : Type 0 where
  pub decode : String → Option ExchangeRequest
  pub rest : String → Rest

-- `net.ParseIP(s) != nil`, and the host of `net.SplitHostPort(s)`, or none on an error
pub record NetParsers : Type 0 where
  pub is_ip : String → Bool
  pub split_host : String → Option String

abbrev pub max_json_body_bytes : ℕ
max_json_body_bytes = 2 ^ 20

-- decodeJSONStrict
unfoldable pub decode_json_strict : JsonDecoder → String → Option ExchangeRequest
decode_json_strict json body =
    let read = slice_to body max_json_body_bytes in
    elim (json.decode read) [
      | none ↦ none
      | some req ↦ elim (json.rest read) [ eof ↦ some req | another_value ↦ none | broken ↦ none ]
    ]

-- hasJSONContentType
unfoldable pub has_json_content_type : Request → Bool
has_json_content_type r =
    let ct = to_lower (trim_space (get_header r "Content-Type")) in
    if ct == "" then false else has_prefix ct "application/json"

abbrev head_or_empty : List String → String
head_or_empty [] = ""
head_or_empty (part ∷ parts) = part

-- one round of the loop of extractRemoteIP: the address in a header, if it is one
proxy_address : NetParsers → Request → String → Option String
proxy_address net r name =
    let value = trim_space (get_header r name) in
    let picked =
      if name == "X-Forwarded-For"
      then trim_space (head_or_empty (split_byte b',' value))
      else value in
    if value == "" then none else if net.is_ip picked then some picked else none

first_proxy_address : NetParsers → Request → List String → Option String
unfolding proxy_address
first_proxy_address net r [] = none
first_proxy_address net r (name ∷ names) =
    let rest = first_proxy_address net r names in
    elim (proxy_address net r name) [ none ↦ rest | some ip ↦ some ip ]

-- the address of the peer, with or without a port
peer_address : NetParsers → Request → String
peer_address net r =
    let peer = trim_space r.remote_addr in
    let bare = if net.is_ip peer then peer else "" in
    elim (net.split_host peer) [ none ↦ bare | some host ↦ if net.is_ip host then host else bare ]

-- extractRemoteIP
unfoldable pub extract_remote_ip : NetParsers → Bool → Request → String
unfolding first_proxy_address peer_address
extract_remote_ip net trust r =
    if trust
    then elim (first_proxy_address net r
        ("CF-Connecting-IP" ∷ "X-Forwarded-For" ∷ "X-Real-IP" ∷ [])) [
          | none ↦ peer_address net r
          | some ip ↦ ip
        ]
    else peer_address net r
