-- ===== src/Tests/Store.antt =====
-- The pages of internal/audit/storage/bunrepo/repository.go and internal/admin/api.go, of three rows.
use turnstile_appcheck_gatew.Prelude.{
  ℕ, true, false, List, [], ◌∷◌, some, ◌==◌, if◌then◌else◌, eqb, take, drop, keep_if, length, ◌≡◌,
  refl, pos, arith,
}
use turnstile_appcheck_gatew.Prelude.{String, Option, none, ltb, ◌⊎◌}
use turnstile_appcheck_gatew.Prelude.Int.{pos_part}
use turnstile_appcheck_gatew.GoStrings.{trim_space, to_lower, to_upper, cut_suffix}
use turnstile_appcheck_gatew.Audit.Event.{Event, empty_event}
use turnstile_appcheck_gatew.Store.{
  Filter, CursorCodec, Database, is_before, matches, normalize_filter, status_class_range,
}
use turnstile_appcheck_gatew.Store.Pages.{walk, IsHealthy, walk_complete}
use turnstile_appcheck_gatew.Http.{Request, Call, Body, json, page_body, error_text}
use turnstile_appcheck_gatew.Http.Gin.{plain_gin}
use turnstile_appcheck_gatew.Handlers.Exchange.Grant.{response}
use turnstile_appcheck_gatew.Audit.Event.{Time}
use turnstile_appcheck_gatew.Store.{list}
use turnstile_appcheck_gatew.Store.Offsets.{admitted_by, limit_of}
use turnstile_appcheck_gatew.Admin.Auth.{anonymous}
use turnstile_appcheck_gatew.Admin.Query.{query_filter, offset_mode}
use turnstile_appcheck_gatew.Admin.Api.{AuditReader, ResetRequest, audit_events, audit_reset}
use turnstile_appcheck_gatew.Admin.Api.Offsets.{offset_after, audit_events-offset_mode}
use turnstile_appcheck_gatew.Admin.Api.Reset.{tables_reader, IsDeletedBy, audit_reset_lem}
use turnstile_appcheck_gatew.Store.Tables.{Tables, unacknowledged, took_effect}

abbrev row : ℕ → Event
row n = record empty_event { seq = n; timestamp = 7; action = "verify.request" }

abbrev three_rows : List Event
three_rows = row 3 ∷ row 2 ∷ row 1 ∷ []

abbrev small_codec : CursorCodec
small_codec = record {
  print = λ c. if eqb c.seq 3 then "three" else if eqb c.seq 2 then "two" else "one";
  parse = λ s.
      some
        (record { timestamp = 7; seq = if s == "three" then 3 else if s == "two" then 2 else 1 });
}

-- the state is the list of rows
abbrev memory : Database (List Event)
memory = record {
  collation = record { same = λ a b. a == b; like = λ a b. a == b };
  select = λ keep n k rows. some (take n (drop k (keep_if keep rows)));
  count = λ keep rows. some (length (keep_if keep rows));
}

memory_healthy : IsHealthy memory three_rows
unfolding is_before
memory_healthy = record {
  rows = three_rows;
  descending = ((refl, (refl, tt)), ((refl, tt), (tt, tt)));
  numbered =
      ((omega arith, omega arith), ((omega arith, omega arith), ((omega arith, omega arith), tt)));
  selects = λ keep limit offset. refl;
  counts = λ keep. refl;
}

abbrev one_by_one : Filter
one_by_one = record {
  from = 0;
  to = 0;
  actor = "";
  action = "verify.request";
  endpoint = "";
  path = "";
  method = "";
  result = "";
  status_code = pos 0;
  status_class = "";
  request_id = "";
  limit = pos 1;
  cursor = "";
  include_total = true;
  offset = pos 0;
}

walk_complete_example :
    walk memory small_codec 4 one_by_one "" three_rows
    ≡ some (keep_if (matches memory.collation (normalize_filter one_by_one)) three_rows)
unfolding trim_space matches normalize_filter status_class_range to_lower to_upper cut_suffix
    memory_healthy
walk_complete_example =
    walk_complete memory small_codec one_by_one three_rows memory_healthy
      ((refl, (refl, refl)), ((refl, (refl, refl)), ((refl, (refl, refl)), tt))) refl 4
      (omega arith)

-- GET /_admin/api/v1/audit-events?offset=1&limit=1
abbrev by_offset : String → String
by_offset key = if key == "offset" then "1" else if key == "limit" then "1" else ""

abbrev no_times : String → String → Option Time
no_times layout value = none

abbrev admin_call : Request
admin_call = record {
  method = "GET";
  path = "/_admin/api/v1/audit-events";
  headers = [];
  remote_addr = "10.0.0.7:4711";
  body = "";
  full_path = "/_admin/api/v1/audit-events";
  client_ip = "10.0.0.7";
}

abbrev memory_reader : AuditReader (List Event)
memory_reader = record {
  list = list memory small_codec;
  get = λ id rows. some none;
  reset = λ marker rows. (marker ∷ [], true);
}

abbrev no_calls : List Call
no_calls = []

audit_events-offset_mode_example :
    let f = query_filter no_times by_offset in
    let rows = admitted_by memory small_codec three_rows memory_healthy f in
    let rest = drop (pos_part f.offset) rows in
    let limit = limit_of memory small_codec three_rows memory_healthy f in
    response (
      audit_events plain_gin true anonymous admin_call
        (some memory_reader)
        three_rows
        small_codec
        no_times
        by_offset
        no_calls)
    ≡ some (
      200,
      page_body
          (take limit rest)
          (length rows)
          (offset_after f (length rows))
          (ltb limit (length rest)),
    )
unfolding offset_mode trim_space
audit_events-offset_mode_example =
    audit_events-offset_mode plain_gin true anonymous admin_call memory small_codec three_rows
      memory_healthy memory_reader no_times by_offset no_calls refl (λ g. refl)

abbrev confirmed : Option ResetRequest
confirmed = some (record { confirmation = "RESET"; reason = "a test" })

abbrev full_tables : Tables
full_tables = record { events = three_rows; rollups = []; next_seq = 4 }

abbrev no_reader : AuditReader Tables
no_reader = record { list = λ f t. none; get = λ id t. some none; reset = λ marker t. (t, false) }

audit_reset_lem_example :
    let after =
      audit_reset plain_gin true anonymous admin_call
        (some (tables_reader no_reader unacknowledged 9 "0f"))
        full_tables
        confirmed
        no_calls in
    (((req : ResetRequest) → confirmed ≡ some req → (req.confirmation == "RESET") ≡ false)
      × (after.0 ≡ full_tables)
      × ((message : String) × (after.1 ≡ json 400 (error_text message) ∷ no_calls)))
    ⊎ ((req : ResetRequest) × (confirmed ≡ some req)
        × ((req.confirmation == "RESET") ≡ true)
        × (took_effect unacknowledged ≡ true → IsDeletedBy anonymous full_tables after.0)
        × (took_effect unacknowledged ≡ false → after.0 ≡ full_tables)
        × ((b : Body) × (after.1 ≡ json 500 b ∷ no_calls)))
audit_reset_lem_example =
    audit_reset_lem plain_gin true anonymous admin_call no_reader unacknowledged 9 "0f" full_tables
      confirmed no_calls
