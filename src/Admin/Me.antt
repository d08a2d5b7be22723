-- ===== src/Admin/Me.antt =====
-- internal/admin/api.go and internal/version: who the caller of the admin API is, and the build.
use turnstile_appcheck_gatew.Prelude.{String, ◌==◌, if◌then◌else◌, List, ◌∷◌, ltb}
use turnstile_appcheck_gatew.GoStrings.{trim_space, slice_to, len}
use turnstile_appcheck_gatew.Http.{Call, json, me_body}
use turnstile_appcheck_gatew.Admin.Auth.{Identity}
use turnstile_appcheck_gatew.Admin.Links.{commit_url, release_tag_url}
use turnstile_appcheck_gatew.Config.{Config}

-- the two variables that the linker sets
unfoldable pub build_value : String → String
build_value value = if trim_space value == "" then "dev" else value

unfoldable pub build_commit : String → String
build_commit commit = if trim_space commit == "" then "unknown" else commit

unfoldable pub short_commit : String → String
unfolding build_commit
short_commit commit = let c = build_commit commit in if ltb 12 (len c) then slice_to c 12 else c

-- me, for the identity that currentIdentity gives
unfoldable pub me : Config → String → String → Identity → List Call → List Call
unfolding build_value build_commit short_commit
me cfg value commit identity calls =
    json 200 (
      me_body (record {
        mode = cfg.auth.mode;
        auth_disabled = identity.auth_disabled;
        user = identity.user;
        email = identity.email;
        groups = identity.groups;
        version = build_value value;
        commit = build_commit commit;
        short_commit = short_commit commit;
        commit_url = commit_url (build_commit commit);
        release_tag_url = release_tag_url (build_value value);
        audit_timestamp_format = cfg.dashboard.timestamp_format;
      }))
    ∷ calls
