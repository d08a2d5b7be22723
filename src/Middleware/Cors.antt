-- ===== src/Middleware/Cors.antt =====
-- internal/middleware/exchange_cors.go: browser CORS for the exchange endpoint.
pub mod Origins
use turnstile_appcheck_gatew.Prelude.{
  String, Bool, true, false, not, ◌||◌, ◌&&◌, List, [], ◌∷◌, Option, none, some, ◌==◌,
  if◌then◌else◌,
}
use turnstile_appcheck_gatew.GoStrings.{trim_space, split_byte, equal_fold}
use turnstile_appcheck_gatew.Http.{Request, Call, next, abort_status, get_header}
use turnstile_appcheck_gatew.Http.Header
use turnstile_appcheck_gatew.Http.Header.{Header}

any_part : String → List String → Bool
any_part value [] = false
any_part value (part ∷ parts) = equal_fold (trim_space part) value || any_part value parts

-- the two loops of addVaryHeader
unfoldable pub varies_on : String → List String → Bool
unfolding any_part
varies_on value [] = false
varies_on value (existing ∷ more) =
    any_part value (split_byte b',' existing) || varies_on value more

unfoldable pub add_vary_header : Header → String → Header
add_vary_header h value =
    if varies_on value (Header.values h "Vary") then h else Header.add h "Vary" value

-- the headers of an allowed request, and of its preflight
pub allow_headers : Request → String → Header → Header
allow_headers r origin h =
    let h1 = add_vary_header h "Origin" in
    let h2 = Header.set h1 "Access-Control-Allow-Origin" origin in
    let h3 = Header.set h2 "Access-Control-Allow-Methods" "POST, OPTIONS" in
    let requested = trim_space (get_header r "Access-Control-Request-Headers") in
    let h4 = if requested == "" then h3 else add_vary_header h3 "Access-Control-Request-Headers" in
    Header.set h4 "Access-Control-Allow-Headers"
      (if requested == "" then "Content-Type" else requested)

-- `originAllowed != nil && !originAllowed(origin)`
abbrev pub refuses : Option (String → Bool) → String → Bool
refuses none origin = false
refuses (some allows) origin = not (allows origin)

-- the handler that ExchangeCORS returns, on the response's header: the header after it and its call.
-- `none` is a nil function.
unfoldable pub exchange_cors : Option (String → Bool) → Request → Header → Header × List Call
exchange_cors allowed r h =
    let origin = trim_space (get_header r "Origin") in
    let preflight = r.method == "OPTIONS" in
    let refused = refuses allowed origin in
    let h' = allow_headers r origin h in
    let requested = trim_space (get_header r "Access-Control-Request-Method") in
    if origin == ""
    then (h, next ∷ [])
    else if refused
    then (h, if preflight then abort_status 403 ∷ [] else next ∷ [])
    else if preflight
    then if not (requested == "") && not (equal_fold requested "POST")
      then (h', abort_status 405 ∷ [])
      else (add_vary_header h' "Access-Control-Request-Method", abort_status 204 ∷ [])
    else (h', next ∷ [])
