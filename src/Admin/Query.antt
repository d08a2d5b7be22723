-- ===== src/Admin/Query.antt =====
-- internal/admin/api.go: the filter that the query of auditEvents asks for, and the cursor that its
-- answer gives.
use turnstile_appcheck_gatew.Prelude.{
  ◌+◌, ◌-◌, ◌^◌, String, Bool, true, not, ◌&&◌, Option, none, some, ◌==◌, if◌then◌else◌, ℤ, pos,
  leb_ℤ, ltb_ℤ, wrap_64,
}
use turnstile_appcheck_gatew.Prelude.Int.{pos_part, neg_part}
use turnstile_appcheck_gatew.GoStrings.{trim_space, atoi}
use turnstile_appcheck_gatew.Http.{Next, no_next, offset_next, cursor_next}
use turnstile_appcheck_gatew.Audit.Event.{Time}
use turnstile_appcheck_gatew.Store.{Filter, Page}

-- `int` addition
unfoldable pub add_int : ℤ → ℤ → ℤ
add_int a b = wrap_64 (2 ^ 65 + pos_part a + pos_part b - (neg_part a + neg_part b))

abbrev or_int : Option ℤ → ℤ → ℤ
or_int none fallback = fallback
or_int (some n) fallback = n

unfoldable pub query_int : (String → String) → String → ℤ → ℤ
query_int query key fallback =
    let value = trim_space (query key) in
    if value == "" then fallback else or_int (atoi value) fallback

abbrev first_time : Option Time → Option Time → Time
first_time (some t) other = t
first_time none (some t) = t
first_time none none = 0

-- queryTime, where `parse layout value` is time.Parse
unfoldable pub query_time : (String → String → Option Time) → (String → String) → String → Time
query_time parse query key =
    let value = trim_space (query key) in
    if value == ""
    then 0
    else first_time (parse "2006-01-02T15:04:05.999999999Z07:00" value) (parse "2006-01-02" value)

-- the filter of auditEvents
unfoldable pub query_filter : (String → String → Option Time) → (String → String) → Filter
query_filter parse query = record {
  from = query_time parse query "from";
  to = query_time parse query "to";
  actor = query "actor";
  action = query "action";
  endpoint = query "endpoint";
  path = query "path";
  method = query "method";
  result = query "result";
  status_code = query_int query "status_code" (pos 0);
  status_class = query "status_class";
  request_id = query "request_id";
  limit = query_int query "limit" (pos 50);
  cursor = query "cursor";
  include_total = true;
  offset = query_int query "offset" (pos 0);
}

unfoldable pub offset_mode : (String → String) → Bool
offset_mode query = (trim_space (query "cursor") == "") && not (trim_space (query "offset") == "")

-- the next cursor of a page
unfoldable pub next_of : Bool → Filter → Page → Next
next_of legacy f page =
    let limit = if leb_ℤ f.limit (pos 0) then pos 50 else f.limit in
    let next_offset = add_int f.offset limit in
    if legacy
    then if ltb_ℤ next_offset (pos page.total) then offset_next next_offset else no_next
    else if page.next_cursor == ""
    then no_next
    else cursor_next page.next_cursor
