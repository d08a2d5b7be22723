-- ===== src/Tests/Event.antt =====
-- An event of internal/audit/event.go, prepared.
use turnstile_appcheck_gatew.Prelude.{◌≤◌, false, [], ◌∷◌, ◌==◌, All, ◌≡◌}
use turnstile_appcheck_gatew.GoStrings.{len}
use turnstile_appcheck_gatew.Audit.Event.{Event, empty_event, text, prepare_event}
use turnstile_appcheck_gatew.Audit.Event.Safety.{IsSafe, prepare_event-IsSafe}

abbrev careless : Event
careless = record empty_event {
  action = "verify.request";
  metadata = ("Authorization", text "Bearer 123") ∷ ("service", text "turnstile") ∷ [];
}

prepare_event-IsSafe_example :
    All IsSafe (prepare_event 5 "0f" careless).metadata
    × (len (prepare_event 5 "0f" careless).user_agent ≤ 512)
    × (len (prepare_event 5 "0f" careless).message ≤ 512)
    × (((prepare_event 5 "0f" careless).actor == "") ≡ false)
prepare_event-IsSafe_example = prepare_event-IsSafe 5 "0f" careless
