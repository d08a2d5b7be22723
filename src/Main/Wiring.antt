-- ===== src/Main/Wiring.antt =====
-- cmd/turnstile-appcheck-gateway/main.go with internal/config/config.go: what the parts of the process
-- work by is what was configured.
use turnstile_appcheck_gatew.Prelude.{
  ◌≤◌, ◌<◌, ℕ, Bool, true, false, Option, ◌==◌, ◌≡◌, ◌↔◌, ◌⊎◌, inl, inr, refl, ℤ, pos, negsuc,
  if◌then◌else◌, String, arith,
}
use turnstile_appcheck_gatew.Prelude.Int.{pos_part}
use turnstile_appcheck_gatew.Prelude.Results.{ok}
use turnstile_appcheck_gatew.Float.{Float64, nan, neg_inf, finite, pos_inf, lt_float, le_float}
use turnstile_appcheck_gatew.Http.{Request, get_header}
use turnstile_appcheck_gatew.Http.Gin.{Gin}
use turnstile_appcheck_gatew.Audit.Policy.{normalize_policy_config}
use turnstile_appcheck_gatew.Audit.Policy.Rates.{IsNormalRate, normalize_policy_config_of_IsNormal}
use turnstile_appcheck_gatew.Audit.Recorder.{
  normalize_async_config, or_positive, default_async_config,
}
use turnstile_appcheck_gatew.Handlers.Verify.{Verdict, decoded, rejected, handle}
use turnstile_appcheck_gatew.Handlers.Verify.Contract.{is_success, forward_auth}
use turnstile_appcheck_gatew.Config.{Parsers, Config, AuditConfig}
use turnstile_appcheck_gatew.Config.Values.{Env}
use turnstile_appcheck_gatew.Config.Values.Checks.{IsPositive, IsRate}
use turnstile_appcheck_gatew.Config.Load.{load_from_map}
use turnstile_appcheck_gatew.Config.Load.Audit.Valid.{HasQueue, HasRetries, HasSampling}
use turnstile_appcheck_gatew.Config.Load.Valid.{load_from_map-IsValid}
use turnstile_appcheck_gatew.Main.{
  policy_config, async_config, no_recorder, sync_recorder, async_recorder, recorder_kind,
  verify_handler,
}

or_positive_of_IsPositive : (v fallback : ℤ) → IsPositive v → or_positive v fallback ≡ v
or_positive_of_IsPositive (pos n) fallback h = ground arith
or_positive_of_IsPositive (negsuc n) fallback h = ground arith

async_config-normal :
    (a : AuditConfig)
    → HasQueue a
    → HasRetries a
    → normalize_async_config (async_config a) ≡ async_config a
unfolding async_config normalize_async_config
async_config-normal a q r =
    let keep = or_positive_of_IsPositive in
    let d = default_async_config in
    cc (
      keep a.channel_size d.channel_size q.0,
      keep a.batch_size d.batch_size q.1,
      keep a.flush_interval d.flush_interval q.2,
      keep a.shutdown_flush_timeout d.shutdown_flush_timeout q.3,
      keep a.enqueue_timeout d.enqueue_timeout r.0,
      keep a.critical_enqueue_timeout d.critical_enqueue_timeout r.1,
      keep a.retry_max_attempts d.retry_max_attempts r.2,
      keep a.retry_initial_backoff d.retry_initial_backoff r.3,
      keep a.retry_max_backoff d.retry_max_backoff r.4,
    )

IsNormalRate-of_IsRate : (v : Float64) → IsRate v → IsNormalRate v
unfolding lt_float le_float
IsNormalRate-of_IsRate nan h = inl refl
IsNormalRate-of_IsRate neg_inf h = cc
IsNormalRate-of_IsRate pos_inf h = cc
IsNormalRate-of_IsRate (finite k) h = inr (ground arith, ground arith)

policy_config-normal :
    (a : AuditConfig) → HasSampling a → normalize_policy_config (policy_config a) ≡ policy_config a
unfolding policy_config
policy_config-normal a h = normalize_policy_config_of_IsNormal (policy_config a) (record {
  mode = h.0;
  verify_success = IsNormalRate-of_IsRate a.verify_success_sample h.1;
  verify_failure = IsNormalRate-of_IsRate a.verify_failure_sample h.2;
  exchange_success = IsNormalRate-of_IsRate a.exchange_success_sample h.3;
  exchange_failure = IsNormalRate-of_IsRate a.exchange_failure_sample h.4;
})

is_success_within : (n : ℕ) → (200 ≤ n) × (n ≤ 299) → is_success n ≡ true
is_success_within n h = ground arith

is_success_outside : (n : ℕ) → (n < 200) ⊎ (299 < n) → is_success n ≡ false
is_success_outside n (inl h) = ground arith
is_success_outside n (inr h) = ground arith

module _ (go : Parsers) (env : Env) (cfg : Config) (loaded : load_from_map go env ≡ ok cfg) where
  -- The recorder of the process works by the policy and the limits that the environment gives: with a
  -- configuration that was loaded, no default takes the place of a value. There is no recorder exactly
  -- if the audit trail is off.
  pub recorder_kind_lem : recorder_kind cfg.audit ≡ (
      if cfg.audit.enabled
      then (if cfg.audit.async_enabled
          then async_recorder (policy_config cfg.audit) (async_config cfg.audit)
          else sync_recorder (policy_config cfg.audit))
      else no_recorder)
  unfolding recorder_kind
  recorder_kind_lem =
      let (m, u, l, s, t, a, v) = load_from_map-IsValid go env cfg loaded in
      let (st, p, q, r, sa, d) = v in
      rw (policy_config-normal cfg.audit sa) (rw (async_config-normal cfg.audit q r))

  -- The verify endpoint of a process that was configured lets a request through, by Traefik's reading
  -- of its status, exactly if the request has a token and the verifier accepts it.
  pub configured_forward_auth :
      (gin : Gin) (verifier : String → Verdict) (r : Request) (recording : Bool)
      → (is_success (gin.writer_status (handle gin recording verifier (verify_handler cfg) r))
          ≡ true)
        ↔ ((id : Option String) × ((if get_header r cfg.verify_header_name == ""
                then rejected
                else verifier (get_header r cfg.verify_header_name))
              ≡ decoded id))
  unfolding verify_handler
  configured_forward_auth gin verifier r recording =
      let (m, u, l, s, t, a, v) = load_from_map-IsValid go env cfg loaded in
      forward_auth gin verifier (verify_handler cfg) r recording
        (is_success_within (pos_part cfg.verify_success_status) s.0)
        (is_success_outside (pos_part cfg.verify_failure_status) s.2)
