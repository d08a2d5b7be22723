-- ===== src/Config/Load/Audit/Valid.antt =====
-- internal/config/config.go: every value of the audit configuration that is loaded is in its range.
use turnstile_appcheck_gatew.Prelude.{
  String, true, false, not, ◌&&◌, ◌==◌, ◌≡◌, refl, if◌then◌else◌, Bool-cases, not-false, inl, inr,
  pos, ltb_ℤ, arith,
}
use turnstile_appcheck_gatew.Prelude.Results.{Ensures, holds, ◌⟫◌, Ensures-refuse_if}
use turnstile_appcheck_gatew.GoStrings.{atoi, to_lower}
use turnstile_appcheck_gatew.Float.{lt_float}
use turnstile_appcheck_gatew.Audit.Policy.{known_mode}
use turnstile_appcheck_gatew.Config.{Parsers, AuditConfig, refused}
use turnstile_appcheck_gatew.Config.Values.{Env, bool_value, checked}
use turnstile_appcheck_gatew.Config.Values.Checks.{
  IsPositive, IsNonNegative, IsRate, setting-Ensures, checked-IsNonNegative, positive_int,
  IsNonNegative-int, positive_duration, IsNonNegative-duration, sample-IsRate, any_value,
}
use turnstile_appcheck_gatew.Config.Load.Audit.{
  default_audit, text_setting, known_storage, load_storage, load_pool, load_queue, load_retries,
  load_sampling, load_retention, load_audit,
}

abbrev pub HasPool : AuditConfig → Type 0
HasPool a =
    IsNonNegative a.db_max_open_conns
    × IsNonNegative a.db_max_idle_conns
    × IsNonNegative a.db_conn_max_lifetime
    × IsNonNegative a.db_conn_max_idle_time

abbrev pub HasQueue : AuditConfig → Type 0
HasQueue a =
    IsPositive a.channel_size
    × IsPositive a.batch_size
    × IsPositive a.flush_interval
    × IsPositive a.shutdown_flush_timeout

abbrev pub HasRetries : AuditConfig → Type 0
HasRetries a =
    IsPositive a.enqueue_timeout
    × IsPositive a.critical_enqueue_timeout
    × IsPositive a.retry_max_attempts
    × IsPositive a.retry_initial_backoff
    × IsPositive a.retry_max_backoff

abbrev pub HasSampling : AuditConfig → Type 0
HasSampling a =
    (known_mode a.public_mode ≡ true)
    × IsRate a.verify_success_sample
    × IsRate a.verify_failure_sample
    × IsRate a.exchange_success_sample
    × IsRate a.exchange_failure_sample

abbrev pub HasRetention : AuditConfig → Type 0
HasRetention a = IsNonNegative a.retention_days × IsNonNegative a.prune_interval

abbrev pub HasStorage : AuditConfig → Type 0
HasStorage a = known_storage a.storage_type ≡ true

-- all but the storage
abbrev pub HasRanges : AuditConfig → Type 0
HasRanges a = HasPool a × HasQueue a × HasRetries a × HasSampling a × HasRetention a

abbrev pub IsValidAudit : AuditConfig → Type 0
IsValidAudit a =
    HasStorage a × HasPool a × HasQueue a × HasRetries a × HasSampling a × HasRetention a

default_audit-HasRanges : (env : Env) → HasRanges (default_audit env)
unfolding default_audit known_mode lt_float
default_audit-HasRanges env = (
  (refl, refl, refl, refl),
  (omega arith, omega arith, omega arith, omega arith),
  (omega arith, omega arith, omega arith, omega arith, omega arith),
  (refl, refl, refl, refl, refl),
  (refl, refl),
)

stored_type :
    (t : String)
    → (not (t == "") && not (known_storage t)) ≡ false
    → known_storage (if t == "" then "sqlite" else t) ≡ true
unfolding known_storage
stored_type t h = elim (Bool-cases (t == "")) [
  | inl e ↦ rw e refl
  | inr e ↦ elim (Bool-cases (known_storage t)) [
    | inl k ↦ rw e k
    | inr k ↦ (let h' = rw (e, k) at h in cc)
  ]
]

load_storage-IsValidAudit :
    (env : Env) (a : AuditConfig) → HasRanges a → Ensures IsValidAudit (load_storage env a)
unfolding load_storage
load_storage-IsValidAudit env a h =
    let type = text_setting env "AUDIT_STORAGE_TYPE" to_lower a.storage_type in
    any_value env "AUDIT_ENABLED" bool_value a.enabled ⟫ (λ enabled _.
      Ensures-refuse_if (not (type == "") && not (known_storage type))
        (refused "AUDIT_STORAGE_TYPE must be sqlite, postgres, postgresql, mariadb, or mysql")
      ⟫ (λ _ s. holds (stored_type type s, h.0, h.1, h.2, h.3, h.4)))

module _ (go : Parsers) (env : Env) (a : AuditConfig) (h : IsValidAudit a) where
  load_pool-IsValidAudit : Ensures IsValidAudit (load_pool go env a)
  unfolding load_pool
  load_pool-IsValidAudit =
      let (s, p, q, r, m, d) = h in
      IsNonNegative-int env "AUDIT_DB_MAX_OPEN_CONNS" a.db_max_open_conns p.0 ⟫ (λ _ v0.
        IsNonNegative-int env "AUDIT_DB_MAX_IDLE_CONNS" a.db_max_idle_conns p.1 ⟫ (λ _ v1.
          IsNonNegative-duration env "AUDIT_DB_CONN_MAX_LIFETIME" go a.db_conn_max_lifetime p.2
          ⟫ (λ _ v2.
              IsNonNegative-duration env "AUDIT_DB_CONN_MAX_IDLE_TIME" go a.db_conn_max_idle_time
                p.3
              ⟫ (λ _ v3. holds (s, (v0, v1, v2, v3), q, r, m, d)))))

  load_queue-IsValidAudit : Ensures IsValidAudit (load_queue go env a)
  unfolding load_queue
  load_queue-IsValidAudit =
      let (s, p, q, r, m, d) = h in
      any_value env "AUDIT_ASYNC_ENABLED" bool_value a.async_enabled ⟫ (λ _ _.
        positive_int env "AUDIT_CHANNEL_SIZE" a.channel_size q.0 ⟫ (λ _ v0.
          positive_int env "AUDIT_BATCH_SIZE" a.batch_size q.1 ⟫ (λ _ v1.
            positive_duration env "AUDIT_FLUSH_INTERVAL" go a.flush_interval q.2 ⟫ (λ _ v2.
              positive_duration env "AUDIT_SHUTDOWN_FLUSH_TIMEOUT" go a.shutdown_flush_timeout q.3
              ⟫ (λ _ v3.
                  any_value env "AUDIT_DROP_ON_FULL" bool_value a.drop_on_full
                  ⟫ (λ _ _. holds (s, p, (v0, v1, v2, v3), r, m, d)))))))

  load_retries-IsValidAudit : Ensures IsValidAudit (load_retries go env a)
  unfolding load_retries
  load_retries-IsValidAudit =
      let (s, p, q, r, m, d) = h in
      positive_duration env "AUDIT_ENQUEUE_TIMEOUT" go a.enqueue_timeout r.0 ⟫ (λ _ v0.
        positive_duration env "AUDIT_CRITICAL_ENQUEUE_TIMEOUT" go a.critical_enqueue_timeout r.1
        ⟫ (λ _ v1. positive_int env "AUDIT_RETRY_MAX_ATTEMPTS" a.retry_max_attempts r.2 ⟫ (λ _ v2.
            positive_duration env "AUDIT_RETRY_INITIAL_BACKOFF" go a.retry_initial_backoff r.3
            ⟫ (λ _ v3.
                positive_duration env "AUDIT_RETRY_MAX_BACKOFF" go a.retry_max_backoff r.4
                ⟫ (λ _ v4. holds (s, p, q, (v0, v1, v2, v3, v4), m, d))))))

  load_sampling-IsValidAudit : Ensures IsValidAudit (load_sampling go env a)
  unfolding load_sampling
  load_sampling-IsValidAudit =
      let (s, p, q, r, m, d) = h in
      let mode = text_setting env "AUDIT_PUBLIC_MODE" to_lower a.public_mode in
      Ensures-refuse_if (not (known_mode mode))
        (refused "AUDIT_PUBLIC_MODE must be summary, step, or failure_step")
      ⟫ (λ _ k.
          sample-IsRate env "AUDIT_VERIFY_SUCCESS_SAMPLE_RATE" go a.verify_success_sample m.1
          ⟫ (λ _ v0.
              sample-IsRate env "AUDIT_VERIFY_FAILURE_SAMPLE_RATE" go a.verify_failure_sample m.2
              ⟫ (λ _ v1.
                  sample-IsRate env "AUDIT_EXCHANGE_SUCCESS_SAMPLE_RATE" go
                    a.exchange_success_sample m.3
                  ⟫ (λ _ v2.
                      sample-IsRate env "AUDIT_EXCHANGE_FAILURE_SAMPLE_RATE" go
                        a.exchange_failure_sample m.4
                      ⟫ (λ _ v3.
                          holds
                            (s, p, q, r, (not-false (known_mode mode) k, v0, v1, v2, v3), d))))))

  load_retention-IsValidAudit : Ensures IsValidAudit (load_retention go env a)
  unfolding load_retention
  load_retention-IsValidAudit =
      let (s, p, q, r, m, d) = h in
      setting-Ensures env "AUDIT_RETENTION_DAYS"
        (λ name raw. checked (λ v. ltb_ℤ v (pos 0)) (atoi raw) name raw) a.retention_days d.0
        (λ raw. checked-IsNonNegative (atoi raw) "AUDIT_RETENTION_DAYS" raw)
      ⟫ (λ _ v0.
          IsNonNegative-duration env "AUDIT_PRUNE_INTERVAL" go a.prune_interval d.1
          ⟫ (λ _ v1. holds (s, p, q, r, m, (v0, v1))))

pub load_audit-IsValidAudit :
    (go : Parsers) (env : Env) → Ensures IsValidAudit (load_audit go env (default_audit env))
unfolding load_audit
load_audit-IsValidAudit go env =
    load_storage-IsValidAudit env (default_audit env) (default_audit-HasRanges env) ⟫ (λ a h.
      load_pool-IsValidAudit go env a h ⟫ (λ a h. load_queue-IsValidAudit go env a h ⟫ (λ a h.
        load_retries-IsValidAudit go env a h ⟫ (λ a h.
          load_sampling-IsValidAudit go env a h
          ⟫ (λ a h. load_retention-IsValidAudit go env a h)))))
