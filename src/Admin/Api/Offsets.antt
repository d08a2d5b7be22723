-- ===== src/Admin/Api/Offsets.antt =====
-- Paging through the audit trail by offsets.
use turnstile_appcheck_gatew.Prelude.{
  ℕ, String, Bool, true, false, List, Option, some, ◌==◌, if◌then◌else◌, ltb, length, take, drop,
  ◌≡◌, refl, arith, pos, leb_ℤ, ltb_ℤ,
}
use turnstile_appcheck_gatew.Prelude.Int.{pos_part}
use turnstile_appcheck_gatew.GoStrings.{trim_space}
use turnstile_appcheck_gatew.Http.{Request, Call, Next, no_next, offset_next, page_body}
use turnstile_appcheck_gatew.Http.Gin.{Gin}
use turnstile_appcheck_gatew.Audit.Event.{Time}
use turnstile_appcheck_gatew.Handlers.Exchange.Grant.{response}
use turnstile_appcheck_gatew.Store.{Filter, CursorCodec, decode_cursor, no_cursor, Database, list}
use turnstile_appcheck_gatew.Store.Pages.{IsHealthy}
use turnstile_appcheck_gatew.Store.Offsets.{admitted_by, limit_of, list_offset}
use turnstile_appcheck_gatew.Admin.Auth.{Identity}
use turnstile_appcheck_gatew.Admin.Query.{add_int, query_filter, offset_mode, next_of}
use turnstile_appcheck_gatew.Admin.Api.{AuditReader, audit_events, answer_page}

-- the offset that the answer names as the next, if the rows do not end before it
abbrev pub offset_after : Filter → ℕ → Next
offset_after f total =
    let n = add_int f.offset (if leb_ℤ f.limit (pos 0) then pos 50 else f.limit) in
    if ltb_ℤ n (pos total) then offset_next n else no_next

module _ (gin : Gin) (recording : Bool) (identity : Identity) (r : Request) {S : Type 0}
    (db : Database S) (codec : CursorCodec) (s : S) (healthy : IsHealthy db s)
    (reader : AuditReader S) (parse : String → String → Option Time) (query : String → String) where
  abbrev f : Filter
  f = query_filter parse query

  no_cursor_given : offset_mode query ≡ true → (trim_space (query "cursor") == "") ≡ true
  unfolding offset_mode
  no_cursor_given h = ground arith

  offset_given : offset_mode query ≡ true → (trim_space (query "offset") == "") ≡ false
  unfolding offset_mode
  offset_given h = ground arith

  decoded : offset_mode query ≡ true → decode_cursor codec f.cursor ≡ some no_cursor
  unfolding decode_cursor query_filter
  decoded h = rw (no_cursor_given h) refl

  -- In the offset mode, and if the reader's pages are those of the store, the answer to auditEvents has
  -- the admitted rows from the offset on, at most the limit capped at 200, and names as the next offset
  -- the given one plus the limit that was asked for, which is not capped.
  pub audit_events-offset_mode :
      (calls : List Call)
      → offset_mode query ≡ true
      → ((g : Filter) → reader.list g s ≡ list db codec g s)
      → let rows = admitted_by db codec s healthy f in
        let rest = drop (pos_part f.offset) rows in
        let limit = limit_of db codec s healthy f in
        response (audit_events gin recording identity r (some reader) s codec parse query calls)
        ≡ some (
          200,
          page_body
              (take limit rest)
              (length rows)
              (offset_after f (length rows))
              (ltb limit (length rest)),
        )
  unfolding audit_events answer_page next_of query_filter
  audit_events-offset_mode calls h same =
      let (next, page) = list_offset db codec s healthy f (decoded h) refl in
      rw (no_cursor_given h, offset_given h, same, page)
