-- ===== src/Store.antt =====
-- internal/audit/storage/bunrepo/repository.go and internal/audit/cursor.go: the pages of the audit
-- trail. The database and the two encodings of a cursor are parameters.
pub mod Rows
pub mod Pages
pub mod Offsets
pub mod Rollups
pub mod Metrics
pub mod Tables
use turnstile_appcheck_gatew.Prelude.{
  ℕ, ◌+◌, ◌*◌, String, Bool, true, false, ◌&&◌, ◌||◌, List, [], ◌∷◌, Option, none, some, ◌==◌,
  if◌then◌else◌, ltb, leb, eqb, length, take, ℤ, pos, leb_ℤ, ltb_ℤ,
}
use turnstile_appcheck_gatew.Prelude.Int.{pos_part}
use turnstile_appcheck_gatew.GoStrings.{trim_space, to_lower, to_upper, cut_suffix, atoi}
use turnstile_appcheck_gatew.Audit.Event.{Time, Event}

-- audit.Filter
pub record Filter : Type 0 where
  pub from : Time
  pub to : Time
  pub actor : String
  pub action : String
  pub endpoint : String
  pub path : String
  pub method : String
  pub result : String
  pub status_code : ℤ
  pub status_class : String
  pub request_id : String
  pub limit : ℤ
  pub cursor : String
  pub include_total : Bool
  pub offset : ℤ

-- audit.Page
pub record Page : Type 0 where
  pub items : List Event
  pub total : ℕ
  pub next_cursor : String
  pub has_next : Bool

unfoldable pub normalize_filter : Filter → Filter
normalize_filter f =
    let limit = if leb_ℤ f.limit (pos 0) then pos 50 else f.limit in
    record f {
      limit = if ltb_ℤ (pos 200) limit then pos 200 else limit;
      method = to_upper (trim_space f.method);
      result = to_lower (trim_space f.result);
      status_class = to_lower (trim_space f.status_class);
    }

unfoldable pub status_class_range : String → Option (ℕ × ℕ)
status_class_range value = elim (cut_suffix (to_lower (trim_space value)) "xx") [
  | none ↦ none
  | some prefix ↦ elim (atoi prefix) [
    | none ↦ none
    | some n ↦
        if leb_ℤ (pos 1) n && leb_ℤ n (pos 5)
        then some (pos_part n * 100, (pos_part n + 1) * 100)
        else none
  ]
]

-- how the database compares texts: `=`, and `path LIKE '%' || part || '%'`
pub record Collation : Type 0 where
  pub same : String → String → Bool
  pub like : String → String → Bool

-- `add` of applyEventFilters
has_column : Collation → String → String → Bool
has_column sql column value =
    let v = trim_space value in if v == "" then true else sql.same column v

in_class : Option (ℕ × ℕ) → ℕ → Bool
in_class none code = true
in_class (some (lo, hi)) code = leb lo code && ltb code hi

has_action : Collation → String → String → Bool
unfolding has_column
has_action sql column value =
    if value == "__public_gateway__"
    then sql.same column "gateway.request"
      || (sql.same column "exchange.request" || sql.same column "verify.request")
    else has_column sql column value

has_path : Collation → String → String → Bool
has_path sql column value = let v = trim_space value in if v == "" then true else sql.like column v

-- applyEventFilters: whether a row meets all the conditions that it puts on the query
unfoldable pub matches : Collation → Filter → Event → Bool
unfolding has_column in_class has_action has_path
matches sql f e =
    (eqb f.from 0 || leb f.from e.timestamp)
    && ((eqb f.to 0 || leb e.timestamp f.to)
        && (has_column sql e.actor f.actor
            && (has_action sql e.action f.action
                && (has_column sql e.endpoint f.endpoint
                    && (has_column sql e.method f.method
                        && (has_column sql e.result f.result
                            && (has_column sql e.request_id f.request_id
                                && (has_path sql e.path f.path
                                    && ((leb_ℤ f.status_code (pos 0)
                                          || eqb e.status_code (pos_part f.status_code))
                                        && in_class (status_class_range f.status_class)
                                            e.status_code)))))))))

-- audit.Cursor; the zero cursor has the zero time
pub record Cursor : Type 0 where
  pub timestamp : Time
  pub seq : ℕ

abbrev pub no_cursor : Cursor
no_cursor = record { timestamp = 0; seq = 0 }

-- JSON in unpadded base64, and back; `parse` answers none on an error of either, and gives the
-- sequence number 0 for one below 0.
pub record CursorCodec : Type 0 where
  pub print : Cursor → String
  pub parse : String → Option Cursor

is_invalid : Cursor → Bool
is_invalid c = eqb c.timestamp 0 || eqb c.seq 0

unfoldable pub encode_cursor : CursorCodec → Cursor → Option String
unfolding is_invalid
encode_cursor codec c = if is_invalid c then none else some (codec.print c)

unfoldable pub decode_cursor : CursorCodec → String → Option Cursor
unfolding is_invalid
decode_cursor codec value =
    let v = trim_space value in
    if v == ""
    then some no_cursor
    else elim (codec.parse v) [ none ↦ none | some c ↦ if is_invalid c then none else some c ]

-- A database of events: `select keep limit offset` are the rows that `keep` admits, by timestamp and
-- then by sequence number, both descending, and `count` is their number; none is an error, also that
-- of a row that does not decode.
pub record Database (S : Type 0) : Type 0 where
  pub collation : Collation
  pub select : (Event → Bool) → ℕ → ℕ → S → Option (List Event)
  pub count : (Event → Bool) → S → Option ℕ

-- `timestamp < ? OR (timestamp = ? AND seq < ?)`
unfoldable pub is_before : Cursor → Event → Bool
is_before c e = ltb e.timestamp c.timestamp || (eqb e.timestamp c.timestamp && ltb e.seq c.seq)

abbrev pub cursor_of : Event → Cursor
cursor_of e = record { timestamp = e.timestamp; seq = e.seq }

abbrev pub last : List Event → Option Event
last [] = none
last (e ∷ []) = some e
last (e ∷ (e' ∷ es)) = last (e' ∷ es)

-- the next cursor of a page, if more rows follow it
next_after : CursorCodec → Bool → List Event → Option String
next_after codec has_next items =
    let next : Option String = elim (last items) [
      | none ↦ some ""
      | some e ↦ encode_cursor codec (cursor_of e)
    ] in
    if has_next then next else some ""

-- the rows that were fetched, one more than the limit, as a page
pub page_of : CursorCodec → ℕ → ℕ → List Event → Option Page
unfolding next_after
page_of codec limit total rows =
    let has_next = ltb limit (length rows) in
    let items = if has_next then take limit rows else rows in
    elim (next_after codec has_next items) [
      | none ↦ none
      | some next ↦
          some (record { items = items; total = total; next_cursor = next; has_next = has_next })
    ]

-- the page of what the query answers
page_from : CursorCodec → ℕ → ℕ → Option (List Event) → Option Page
unfolding page_of
page_from codec limit total none = none
page_from codec limit total (some rows) = page_of codec limit total rows

module _ {S : Type 0} (db : Database S) (codec : CursorCodec) where
  -- the query of List and its page
  fetch : Filter → Cursor → ℕ → S → Option Page
  unfolding page_from
  fetch f c total s =
      let first = eqb c.timestamp 0 in
      let keep = λ (e : Event). matches db.collation f e && (first || is_before c e) in
      let offset = if first then pos_part f.offset else 0 in
      page_from codec (pos_part f.limit) total (db.select keep (pos_part f.limit + 1) offset s)

  -- List, after the cursor is decoded and the rows are counted
  fetch_if : Filter → Option Cursor → Option ℕ → S → Option Page
  unfolding fetch
  fetch_if f none total s = none
  fetch_if f (some c) none s = none
  fetch_if f (some c) (some total) s = fetch f c total s

  -- Repository.List
  unfoldable pub list : Filter → S → Option Page
  unfolding fetch_if normalize_filter
  list filter s =
      let f = normalize_filter filter in
      let total = if f.include_total then db.count (matches db.collation f) s else some 0 in
      fetch_if f (decode_cursor codec f.cursor) total s
