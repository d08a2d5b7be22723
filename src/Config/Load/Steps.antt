-- ===== src/Config/Load/Steps.antt =====
-- internal/config/config.go: what the steps of loadFromMap check and keep.
use turnstile_appcheck_gatew.Prelude.{
  ◌*◌, ◌||◌, ◌≤◌, ◌<◌, ℕ, String, Bool, true, false, not, ◌&&◌, List, ◌==◌, ◌≡◌, ◌⊎◌, inl, inr,
  refl, Bool-cases, ℤ, pos, negsuc, leb_ℤ, ltb_ℤ, arith,
}
use turnstile_appcheck_gatew.Prelude.Int.{pos_part}
use turnstile_appcheck_gatew.Prelude.Results.{
  Ensures, holds, ◌⟫◌, Ensures-refuse_if, Ensures-weaken,
}
use turnstile_appcheck_gatew.GoStrings.{atoi}
use turnstile_appcheck_gatew.Audit.Event.{minute}
use turnstile_appcheck_gatew.Config.{Parsers, Config}
use turnstile_appcheck_gatew.Config.Values.{Env, bool_value, checked, parse_allowed_origins}
use turnstile_appcheck_gatew.Config.Values.Checks.{
  IsPositive, setting-Ensures, checked-Ensures, checked_positive, any_value,
}
use turnstile_appcheck_gatew.Config.Load.{
  duration_value, positive_duration_value, load_times, load_admin, load_rate_limit, outside,
  or_header, success_value, failure_value, load_statuses, load_origins,
}
use turnstile_appcheck_gatew.Config.Load.Audit.{default_audit}
use turnstile_appcheck_gatew.Config.Load.Audit.Valid.{IsValidAudit}
use turnstile_appcheck_gatew.Config.Load.Upstream.Valid.{HasMocks, HasUpstream}

abbrev pub IsWithin : ℕ → ℕ → ℤ → Type 0
IsWithin low high v = (low ≤ pos_part v) × (pos_part v ≤ high)

-- an hour's fraction at least, and a week at most
abbrev pub HasTimes : Config → Type 0
HasTimes c =
    IsPositive c.request_timeout
    × IsWithin (30 * minute) (7 * 24 * 60 * minute) c.app_check_token_ttl

abbrev pub HasAdmin : Config → Type 0
HasAdmin c =
    ((c.dashboard.base_path == "/") ≡ false)
    × (((c.auth.mode == "header") ≡ true) ⊎ ((c.auth.mode == "none") ≡ true))
    × ((c.auth.user_header == "") ≡ false)
    × ((c.auth.email_header == "") ≡ false)
    × ((c.auth.groups_header == "") ≡ false)

abbrev pub HasLimits : Config → Type 0
HasLimits c = IsPositive c.rate_limit.requests_per_window × IsPositive c.rate_limit.window

-- the statuses that forwardAuth reads as allow and as deny
abbrev pub HasStatuses : Config → Type 0
HasStatuses c =
    IsWithin 200 299 c.verify_success_status
    × IsWithin 100 599 c.verify_failure_status
    × ((pos_part c.verify_failure_status < 200) ⊎ (299 < pos_part c.verify_failure_status))

within :
    (low high : ℕ) (v : ℤ) → 0 < low → outside (pos low) (pos high) v ≡ false → IsWithin low high v
unfolding outside
within low high (pos n) p h = ground arith
within low high (negsuc n) p h = ground arith

beyond :
    (low high : ℕ) (v : ℤ)
    → not (outside (pos low) (pos high) v) ≡ false
    → 0 < low
    → (pos_part v < low) ⊎ (high < pos_part v)
unfolding outside
beyond low high (pos n) h p = ground arith
beyond low high (negsuc n) h p = ground arith

IsWithin-checked :
    (low high : ℕ)
    → 0 < low
    → (raw name : String)
    → Ensures (IsWithin low high) (checked (outside (pos low) (pos high)) (atoi raw) name raw)
IsWithin-checked low high p raw name =
    Ensures-weaken (checked-Ensures (outside (pos low) (pos high)) (atoi raw) name raw)
      (λ v h. within low high v p h)

-- what the steps before the audit trail leave for those after it
abbrev pub Started : Env → List String → Config → Type 0
Started env lacking c =
    HasMocks c × HasUpstream lacking c × HasLimits c × HasStatuses c × (c.audit ≡ default_audit env)

pub load_times-HasTimes :
    (go : Parsers) (env : Env) (lacking : List String) (c : Config)
    → Started env lacking c
    → IsPositive c.request_timeout
    → Ensures (λ c'. Started env lacking c' × HasTimes c') (load_times go env c)
unfolding load_times outside
load_times-HasTimes go env lacking c s h =
    setting-Ensures env "REQUEST_TIMEOUT" (positive_duration_value go) c.request_timeout h
      (λ raw. checked_positive (go.parse_duration raw) "REQUEST_TIMEOUT" raw)
    ⟫ (λ _ t.
        any_value env "APPCHECK_TOKEN_TTL" (duration_value go) c.app_check_token_ttl ⟫ (λ ttl _.
          Ensures-refuse_if
            (ltb_ℤ ttl (pos (30 * minute)) || ltb_ℤ (pos (7 * 24 * 60 * minute)) ttl) _
          ⟫ (λ _ w. any_value env "TRUST_PROXY_HEADERS" bool_value c.trust_proxy_headers ⟫ (λ _ _.
              holds (s, (t, within (30 * minute) (7 * 24 * 60 * minute) ttl (omega arith) w))))))

either_of : (a b : Bool) → (not a && not b) ≡ false → (a ≡ true) ⊎ (b ≡ true)
either_of true b h = inl refl
either_of false true h = inr refl
either_of false false h = cc

or_header-ne-empty :
    (name fallback : String) → (fallback == "") ≡ false → (or_header name fallback == "") ≡ false
unfolding or_header
or_header-ne-empty name fallback h = elim (Bool-cases (name == "")) [
  | inl e ↦ rw e h
  | inr e ↦ rw e e
]

pub load_admin-HasAdmin :
    (env : Env) (lacking : List String) (c : Config)
    → Started env lacking c × HasTimes c
    → Ensures (λ c'. Started env lacking c' × HasTimes c' × HasAdmin c') (load_admin env c)
unfolding load_admin
load_admin-HasAdmin env lacking c h =
    any_value env "ADMIN_DASHBOARD_ENABLED" bool_value c.dashboard.enabled ⟫ (λ _ _.
      Ensures-refuse_if (c.dashboard.base_path == "/") _ ⟫ (λ _ b.
        Ensures-refuse_if (not (c.auth.mode == "header") && not (c.auth.mode == "none")) _ ⟫ (λ _ m.
          holds (
            h.0,
            h.1,
            (
              b,
              either_of (c.auth.mode == "header") (c.auth.mode == "none") m,
              or_header-ne-empty c.auth.user_header "X-Forwarded-User" refl,
              or_header-ne-empty c.auth.email_header "X-Forwarded-Email" refl,
              or_header-ne-empty c.auth.groups_header "X-Forwarded-Groups" refl,
            ),
          ))))

abbrev pub IsFailure : ℤ → Type 0
IsFailure v = IsWithin 100 599 v × ((pos_part v < 200) ⊎ (299 < pos_part v))

-- what the steps after the audit trail keep
abbrev pub Audited : List String → Config → Type 0
Audited lacking c =
    HasMocks c
    × HasUpstream lacking c
    × HasLimits c
    × HasStatuses c
    × HasTimes c
    × HasAdmin c
    × IsValidAudit c.audit

module _ (go : Parsers) (env : Env) (lacking : List String) (c : Config)
    (h : Audited lacking c) where
  pub load_rate_limit-Audited : Ensures (Audited lacking) (load_rate_limit go env c)
  unfolding load_rate_limit
  load_rate_limit-Audited =
      let (m, u, l, s, t, a, v) = h in
      any_value env "RATE_LIMIT_ENABLED" bool_value c.rate_limit.enabled ⟫ (λ _ _.
        setting-Ensures env "RATE_LIMIT_REQUESTS"
          (λ name raw. checked (λ v. leb_ℤ v (pos 0)) (atoi raw) name raw)
          c.rate_limit.requests_per_window l.0
          (λ raw. checked_positive (atoi raw) "RATE_LIMIT_REQUESTS" raw)
        ⟫ (λ _ r.
            setting-Ensures env "RATE_LIMIT_WINDOW" (positive_duration_value go) c.rate_limit.window
              l.1 (λ raw. checked_positive (go.parse_duration raw) "RATE_LIMIT_WINDOW" raw)
            ⟫ (λ _ w. holds (m, u, (r, w), s, t, a, v))))

  pub load_statuses-Audited : Ensures (Audited lacking) (load_statuses env c)
  unfolding load_statuses
  load_statuses-Audited =
      let (m, u, l, s, t, a, v) = h in
      setting-Ensures env "VERIFY_SUCCESS_STATUS" success_value c.verify_success_status s.0 (λ raw.
        IsWithin-checked 100 599 (omega arith) raw "VERIFY_SUCCESS_STATUS" ⟫ (λ v _.
          Ensures-refuse_if (outside (pos 200) (pos 299) v) _
          ⟫ (λ _ i. holds (within 200 299 v (omega arith) i))))
      ⟫ (λ _ i.
          setting-Ensures {P = IsFailure} env "VERIFY_FAILURE_STATUS" failure_value
            c.verify_failure_status (s.1, s.2)
            (λ raw. IsWithin-checked 100 599 (omega arith) raw "VERIFY_FAILURE_STATUS" ⟫ (λ v w.
              Ensures-refuse_if (not (outside (pos 200) (pos 299) v)) _
              ⟫ (λ _ o. holds (w, beyond 200 299 v o (omega arith)))))
          ⟫ (λ _ f. holds (m, u, l, (i, f.0, f.1), t, a, v)))

  pub load_origins-Audited : Ensures (Audited lacking) (load_origins go env c)
  unfolding load_origins
  load_origins-Audited =
      any_value env "ALLOWED_EXCHANGE_ORIGINS" (λ name raw. parse_allowed_origins go raw)
        c.allowed_exchange_origins
      ⟫ (λ _ _. holds h)
