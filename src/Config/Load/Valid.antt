-- ===== src/Config/Load/Valid.antt =====
-- internal/config/config.go: every configuration that loadFromMap returns is in range and complete.
use turnstile_appcheck_gatew.Prelude.{String, List, ◌≡◌, inr, refl, sym, subst, arith}
use turnstile_appcheck_gatew.Prelude.Results.{ok, Ensures, ◌⟫◌, Ensures-ok, Ensures-weaken}
use turnstile_appcheck_gatew.Config.{Parsers, Config}
use turnstile_appcheck_gatew.Config.Values.{Env}
use turnstile_appcheck_gatew.Config.Values.Checks.{IsPositive}
use turnstile_appcheck_gatew.Config.Load.{load_from_map}
use turnstile_appcheck_gatew.Config.Load.Defaults.{default_config}
use turnstile_appcheck_gatew.Config.Load.Audit.{default_audit}
use turnstile_appcheck_gatew.Config.Load.Audit.Valid.{IsValidAudit, load_audit-IsValidAudit}
use turnstile_appcheck_gatew.Config.Load.Upstream.{load_upstream, check_upstream}
use turnstile_appcheck_gatew.Config.Load.Upstream.Valid.{
  HasMocks, IsServed, check_mocks-HasMocks, load_upstream-HasUpstream, check_upstream-IsServed,
  load_upstream-keeps,
}
use turnstile_appcheck_gatew.Config.Load.Steps.{
  HasTimes, HasAdmin, HasLimits, HasStatuses, Started, Audited, load_times-HasTimes,
  load_admin-HasAdmin, load_rate_limit-Audited, load_statuses-Audited, load_origins-Audited,
}

abbrev pub IsValid : Config → Type 0
IsValid c =
    HasMocks c
    × IsServed c
    × HasLimits c
    × HasStatuses c
    × HasTimes c
    × HasAdmin c
    × IsValidAudit c.audit

abbrev IsKept : Config → Type 0
IsKept c = HasMocks c × HasLimits c × HasStatuses c × HasTimes c × HasAdmin c × IsValidAudit c.audit

finish :
    (lacking : List String) (c : Config)
    → Audited lacking c
    → Ensures IsValid (check_upstream lacking c)
finish lacking c h =
    let (m, u, l, s, t, a, v) = h in
    Ensures-weaken (check_upstream-IsServed lacking c u) (λ c' k.
      let (served, (app, e)) = k in
      let kept : IsKept c' = subst IsKept (sym e) (m, l, s, t, a, v) in
      (kept.0, served, kept.1, kept.2, kept.3, kept.4, kept.5))

abbrev Sets : Env → Config → Type 0
Sets env c =
    HasLimits c × HasStatuses c × (c.audit ≡ default_audit env) × IsPositive c.request_timeout

default_config-Sets : (env : Env) → Sets env (default_config env)
unfolding default_config
default_config-Sets env = (
  (omega arith, omega arith),
  ((omega arith, omega arith), (omega arith, omega arith), inr (omega arith)),
  refl,
  omega arith,
)

start :
    (go : Parsers) (env : Env) (c : Config)
    → HasMocks c
    → c ≡ default_config env
    → let (upstream, lacking) = load_upstream go env c in
      Started env lacking upstream × IsPositive upstream.request_timeout
start go env c h e =
    let (p, a, r, k, j, kept) = load_upstream-keeps go env c in
    let (mocks, (limits, statuses, audit, timeout)) : HasMocks (load_upstream go env c).0
        × Sets env (load_upstream go env c).0 =
      subst (λ c'. HasMocks c' × Sets env c') (sym kept)
        (h, subst (Sets env) (sym e) (default_config-Sets env)) in
    ((mocks, load_upstream-HasUpstream go env c, limits, statuses, audit), timeout)

load_from_map-Ensures : (go : Parsers) (env : Env) → Ensures IsValid (load_from_map go env)
unfolding load_from_map
load_from_map-Ensures go env = check_mocks-HasMocks (default_config env) ⟫ (λ c h.
    let lacking = (load_upstream go env c).1 in
    let (s, p) = start go env c h.0 h.1 in
    load_times-HasTimes go env lacking (load_upstream go env c).0 s p ⟫ (λ timed f.
      load_admin-HasAdmin env lacking timed f ⟫ (λ with_admin g.
        rw g.0.4 (load_audit-IsValidAudit go env) ⟫ (λ audited v.
          load_rate_limit-Audited go env lacking (record with_admin { audit = audited })
            (g.0.0, g.0.1, g.0.2, g.0.3, g.1, g.2, v)
          ⟫ (λ limited h. load_statuses-Audited go env lacking limited h ⟫ (λ with_statuses h.
              load_origins-Audited go env lacking with_statuses h
              ⟫ (λ with_origins h. finish lacking with_origins h)))))))

-- Every configuration that is loaded is in range and complete: the mode, with the mocks' tokens; the
-- keys, resource and app of the upstream services if no mocks stand in; a positive rate limit; a
-- success status that forwardAuth reads as allow and a failure status that it does not; positive
-- times and a token lifetime from 30 minutes to a week; an admin path that is not the root, a known
-- way of authentication and its headers; and every limit, rate and name of the audit trail.
pub load_from_map-IsValid :
    (go : Parsers) (env : Env) (cfg : Config) → load_from_map go env ≡ ok cfg → IsValid cfg
load_from_map-IsValid go env cfg h = Ensures-ok (load_from_map-Ensures go env) h
