-- ===== src/Middleware/RateLimit.antt =====
-- internal/middleware/rate_limit.go: a fixed window for each client address and route. A call of
-- `allow` is one step, since it holds the limiter's mutex; `now` is the time that it read before.
pub mod Window
pub mod Bound
use Prim.Native.String.{◌++◌}
use turnstile_appcheck_gatew.Prelude.{
  ℕ, ◌+◌, ◌*◌, String, Bool, true, false, not, ◌||◌, List, [], ◌∷◌, Option, none, some,
  if◌then◌else◌, leb, eqb, ℤ, pos, leb_ℤ, ltb_ℤ, sub_ℕ, wrap_64,
}
use turnstile_appcheck_gatew.Prelude.Int.{pos_part}
use turnstile_appcheck_gatew.Dict.{Dict, lookup, insert, retain}
use turnstile_appcheck_gatew.Audit.Event.{Time, Event, empty_event, result_denied, minute}
use turnstile_appcheck_gatew.Http.{
  Request, Call, next, abort_json, record_event, error_text, user_agent, request_id,
}

pub record RateEntry : Type 0 where
  pub window_start : Time
  pub count : ℕ

-- rateEntry{}, which a missing key reads as
abbrev pub zero_entry : RateEntry
zero_entry = record { window_start = 0; count = 0 }

-- `window` is positive: see new_rate_limiter.
pub record FixedWindowLimiter : Type 0 where
  pub window : ℕ
  pub entries : Dict RateEntry

abbrev pub or_zero : Option RateEntry → RateEntry
or_zero none = zero_entry
or_zero (some e) = e

unfoldable pub entry_at : FixedWindowLimiter → String → RateEntry
entry_at l key = or_zero (lookup key l.entries)

-- the entry is unset, or `now.Sub(windowStart) >= window`
unfoldable pub is_over : ℕ → Time → RateEntry → Bool
is_over window now e = eqb e.window_start 0 || leb (e.window_start + window) now

-- `!(now.Sub(windowStart) > 2*window)`, where the product is that of int64
unfoldable pub is_recent : ℕ → Time → RateEntry → Bool
is_recent window now e = not (ltb_ℤ (wrap_64 (2 * window)) (sub_ℕ now e.window_start))

unfoldable pub prune_locked : FixedWindowLimiter → Time → FixedWindowLimiter
unfolding is_recent
prune_locked l now = record l { entries = retain (is_recent l.window now) l.entries }

unfoldable pub allow : FixedWindowLimiter → String → ℕ → Time → FixedWindowLimiter × Bool
allow l key max now =
    let entry = entry_at l key in
    let fresh = record l {
      entries = insert key (record { window_start = now; count = 1 }) l.entries;
    } in
    if is_over l.window now entry
    then (prune_locked fresh now, true)
    else if leb max entry.count
    then (l, false)
    else (
      record l { entries = insert key (record entry { count = entry.count + 1 }) l.entries },
      true,
    )

-- config.RateLimitConfig
pub record RateLimitConfig : Type 0 where
  pub enabled : Bool
  pub requests_per_window : ℤ
  pub window : ℤ

-- the limiter that NewRateLimiter makes
unfoldable pub new_limiter : RateLimitConfig → FixedWindowLimiter
new_limiter cfg = record {
  window = if leb_ℤ cfg.window (pos 0) then minute else pos_part cfg.window;
  entries = [];
}

-- the event of recordRateLimit
unfoldable pub rate_limit_event : Request → Event
rate_limit_event r = record empty_event {
  actor = "public";
  actor_source = "public";
  action = "rate_limit.denied";
  method = r.method;
  path = r.path;
  endpoint = r.full_path;
  status_code = 429;
  result = result_denied;
  remote_addr = r.client_ip;
  user_agent = user_agent r;
  request_id = request_id r;
  error_code = "rate_limit_exceeded";
  message = "Public endpoint rate limit exceeded";
}

-- The handler that NewRateLimiter returns, for a recorder that is not nil, with the calls that it makes.
unfoldable pub rate_limit :
    RateLimitConfig → FixedWindowLimiter → Request → Time → FixedWindowLimiter × List Call
unfolding allow rate_limit_event
rate_limit cfg l r now =
    let (l', allowed) =
      allow l (r.client_ip ++ ("|" ++ r.full_path)) (pos_part cfg.requests_per_window) now in
    if not cfg.enabled || leb_ℤ cfg.requests_per_window (pos 0)
    then (l, next ∷ [])
    else if not allowed
    then (
      l',
      abort_json 429 (error_text "rate limit exceeded") ∷ record_event (rate_limit_event r) ∷ [],
    )
    else (l', next ∷ [])
