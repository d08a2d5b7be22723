-- ===== src/Audit/Event.antt =====
-- internal/audit/event.go: the audit event, its preparation, and the metric that counts it.
pub mod Safety
use Prim.Native.String.{◌++◌}
use turnstile_appcheck_gatew.Prelude.{
  ℕ, ◌-◌, ◌/◌, ◌%◌, String, Bool, false, ◌||◌, List, [], ◌∷◌, ◌==◌, leb, eqb, if◌then◌else◌, ℤ,
}
use turnstile_appcheck_gatew.GoStrings.{
  len, slice_to, contains, trim_space, to_lower, to_upper, decimal,
}
use turnstile_appcheck_gatew.Float.{Float64}

-- `time.Time` in UTC: nanoseconds since the zero time, which is 0.
abbrev pub Time : Type 0
Time = ℕ

-- a positive `time.Duration`, in nanoseconds
abbrev pub minute : ℕ
minute = 60000000000

abbrev pub result_success : String
result_success = "success"

abbrev pub result_failure : String
result_failure = "failure"

abbrev pub result_denied : String
result_denied = "denied"

-- A value of the type `any` in the metadata, by the cases of `SafeMetadata`. A `stringer` holds what
-- its `String()` returns, and `other` what `fmt.Sprint` makes of the value.
pub data MetaValue : Type 0 where
  text : String → MetaValue
  stringer : String → MetaValue
  int : ℤ → MetaValue
  int_64 : ℤ → MetaValue
  float : Float64 → MetaValue
  flag : Bool → MetaValue
  nil : MetaValue
  other : String → MetaValue

abbrev pub Metadata : Type 0
Metadata = List (String × MetaValue)

pub record Event : Type 0 where
  pub seq : ℕ
  pub id : String
  pub timestamp : Time
  pub actor : String
  pub actor_source : String
  pub action : String
  pub method : String
  pub path : String
  pub endpoint : String
  pub status_code : ℕ
  pub result : String
  pub remote_addr : String
  pub user_agent : String
  pub request_id : String
  pub duration_ms : ℕ
  pub error_code : String
  pub message : String
  pub metadata : Metadata

-- Event{}
abbrev pub empty_event : Event
empty_event = record {
  seq = 0;
  id = "";
  timestamp = 0;
  actor = "";
  actor_source = "";
  action = "";
  method = "";
  path = "";
  endpoint = "";
  status_code = 0;
  result = "";
  remote_addr = "";
  user_agent = "";
  request_id = "";
  duration_ms = 0;
  error_code = "";
  message = "";
  metadata = [];
}

pub record MetricRollup : Type 0 where
  pub bucket_start : Time
  pub bucket_size : ℕ
  pub endpoint : String
  pub method : String
  pub action : String
  pub result : String
  pub status_class : String
  pub status_code : ℕ
  pub count : ℕ

-- Truncate(value, max), for max at least 0
unfoldable pub truncate : String → ℕ → String
truncate value max = if eqb max 0 || leb (len value) max then value else slice_to value max

abbrev pub sensitive_parts : List String
sensitive_parts =
    "password" ∷ "passwd" ∷ "secret" ∷ "token" ∷ "authorization" ∷ "cookie" ∷ "set-cookie" ∷ "body"
    ∷ "payload" ∷ "credential" ∷ "service_account" ∷ "apikey" ∷ "api_key" ∷ []

-- the loop of `isSensitiveKey`
unfoldable pub contains_any : String → List String → Bool
contains_any key [] = false
contains_any key (part ∷ parts) = contains key part || contains_any key parts

unfoldable pub is_sensitive_key : String → Bool
unfolding contains_any
is_sensitive_key key = contains_any (to_lower (trim_space key)) sensitive_parts

-- the `switch` of `SafeMetadata`
unfoldable pub safe_value : MetaValue → MetaValue
safe_value (text v) = text (truncate v 256)
safe_value (stringer v) = text (truncate v 256)
safe_value (other v) = text (truncate v 256)
safe_value v = v

-- the loop of `SafeMetadata`; no metadata and an empty map are one value here
unfoldable pub safe_metadata : Metadata → Metadata
unfolding safe_value
safe_metadata [] = []
safe_metadata ((key, value) ∷ more) =
    let rest = safe_metadata more in
    if is_sensitive_key key then rest else (key, safe_value value) ∷ rest

abbrev pub or_default : String → String → String
or_default value fallback = if value == "" then fallback else value

-- PrepareEvent at the time `now`; `random` is what `randomHex(16)` returns. It never fails.
unfoldable pub prepare_event : Time → String → Event → Event
unfolding safe_metadata
prepare_event now random e = record e {
  id = if e.id == "" then "audit_" ++ random else e.id;
  timestamp = if eqb e.timestamp 0 then now else e.timestamp;
  actor = or_default e.actor "anonymous";
  method = to_upper (trim_space e.method);
  result = to_lower (trim_space (or_default e.result result_success));
  user_agent = truncate e.user_agent 512;
  message = truncate e.message 512;
  metadata = safe_metadata e.metadata;
}

unfoldable pub status_class : ℕ → String
status_class status = if leb status 0 then "" else decimal (status / 100) ++ "xx"

-- NewMetricRollup; `Truncate(time.Minute)` counts minutes from the zero time
unfoldable pub new_metric_rollup : Event → MetricRollup
unfolding status_class
new_metric_rollup e = record {
  bucket_start = e.timestamp - e.timestamp % minute;
  bucket_size = minute;
  endpoint = e.endpoint;
  method = e.method;
  action = e.action;
  result = e.result;
  status_class = status_class e.status_code;
  status_code = e.status_code;
  count = 1;
}
