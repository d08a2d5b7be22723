-- ===== src/Admin/Api/Reset.antt =====
-- internal/admin/api.go and internal/audit/storage/bunrepo/repository.go: when the audit trail is
-- deleted, and what is left of it. The recorder is one that passes Reset on to the repository.
use turnstile_appcheck_gatew.Prelude.{
  String, Bool, true, false, List, [], ◌∷◌, Option, none, some, ◌==◌, if◌then◌else◌, ◌≡◌, refl, ◌⊎◌,
  inl, inr, Bool-cases,
}
use turnstile_appcheck_gatew.Http.{Request, Call, Body, json, error_text, status_text}
use turnstile_appcheck_gatew.Http.Gin.{Gin}
use turnstile_appcheck_gatew.Audit.Event.{Event, Time, prepare_event}
use turnstile_appcheck_gatew.Admin.Auth.{Identity}
use turnstile_appcheck_gatew.Admin.Api.{
  AuditReader, ResetRequest, admin_event, reset_marker, reset_with, audit_reset,
}
use turnstile_appcheck_gatew.Store.Tables.{
  Tables, Tx, commits, rolled_back, unacknowledged, took_effect, acknowledged, finish, run_in_tx,
  to_event_model, insert_event, insert_event_models, prepare_event_models, write_reset, reset,
}

-- the reader over the tables; the transaction of the reset comes to `tx`
abbrev pub tables_reader : AuditReader Tables → Tx → Time → String → AuditReader Tables
tables_reader reader tx now random = record reader {
  reset = λ marker t. reset tx (marker, now, random) t;
}

-- The trail that is left has one row, which tells who deleted it.
abbrev pub IsDeletedBy : Identity → Tables → Tables → Type 0
IsDeletedBy identity t t' =
    (e : Event) × (t'.events ≡ e ∷ [])
    × (t'.rollups ≡ [])
    × (e.action ≡ "audit.reset")
    × (e.actor ≡ (if identity.user == "" then "anonymous" else identity.user))
    × (e.seq ≡ t.next_seq)

module _ (gin : Gin) (recording : Bool) (identity : Identity) (r : Request) where
  write_reset-IsDeletedBy :
      (req : ResetRequest) (now : Time) (random : String) (t : Tables)
      → IsDeletedBy identity t
          (write_reset (reset_marker gin recording identity r req, now, random) t)
  unfolding write_reset insert_event_models insert_event prepare_event_models to_event_model
      prepare_event reset_marker admin_event
  write_reset-IsDeletedBy req now random t = (_, refl, refl, refl, refl, refl)

  reset_effect :
      (tx : Tx) (req : ResetRequest) (now : Time) (random : String) (t : Tables)
      → let left = reset tx (reset_marker gin recording identity r req, now, random) t in
        (left.1 ≡ acknowledged tx)
        × (took_effect tx ≡ true → IsDeletedBy identity t left.0)
        × (took_effect tx ≡ false → left.0 ≡ t)
  unfolding reset run_in_tx finish
  reset_effect commits req now random t =
      (refl, (λ h. write_reset-IsDeletedBy req now random t), λ h. cc)
  reset_effect rolled_back req now random t = (refl, (λ h. cc), λ h. refl)
  reset_effect unacknowledged req now random t =
      (refl, (λ h. write_reset-IsDeletedBy req now random t), λ h. cc)

  -- Either the body does not ask for the reset with the word "RESET", the tables are as they were and
  -- the answer is 400; or it does, and then, if the transaction takes effect, the tables hold one event,
  -- the reset by the administrator (or by "anonymous" if the user has no name), with the next sequence
  -- number, and no rollup, and are as they were if it is rolled back; the answer is 200 if the commit
  -- is acknowledged, else 500. The recorder is one that passes Reset on to the repository.
  pub audit_reset_lem :
      (reader : AuditReader Tables) (tx : Tx) (now : Time) (random : String) (t : Tables)
      (bound : Option ResetRequest) (calls : List Call)
      → let after =
          audit_reset gin recording identity r
            (some (tables_reader reader tx now random))
            t
            bound
            calls in
        (((req : ResetRequest) → bound ≡ some req → (req.confirmation == "RESET") ≡ false)
          × (after.0 ≡ t)
          × ((message : String) × (after.1 ≡ json 400 (error_text message) ∷ calls)))
        ⊎ ((req : ResetRequest) × (bound ≡ some req)
            × ((req.confirmation == "RESET") ≡ true)
            × (took_effect tx ≡ true → IsDeletedBy identity t after.0)
            × (took_effect tx ≡ false → after.0 ≡ t)
            × ((b : Body) × (after.1 ≡ json (if acknowledged tx then 200 else 500) b ∷ calls)))
  unfolding audit_reset reset_with
  audit_reset_lem reader tx now random t none calls =
      inl ((λ req h. cc), refl, ("invalid reset request", refl))
  audit_reset_lem reader tx now random t (some req) calls =
      let (told, deleted, kept) = reset_effect tx req now random t in
      elim (Bool-cases (req.confirmation == "RESET")) [
        | inr e ↦ inl (rw e ((λ req' h. cc), refl, ("confirmation must be RESET", refl)))
        | inl e ↦ elim (Bool-cases (acknowledged tx)) [
          | inl ok ↦ inr (
            req,
            refl,
            e,
            rw e (rw told (rw ok deleted)),
            rw e (rw told (rw ok kept)),
            (status_text "ok", rw e (rw told (rw ok refl))),
          )
          | inr ko ↦ inr (
            req,
            refl,
            e,
            rw e (rw told (rw ko deleted)),
            rw e (rw told (rw ko kept)),
            (error_text "failed to reset audit events", rw e (rw told (rw ko refl))),
          )
        ]
      ]
