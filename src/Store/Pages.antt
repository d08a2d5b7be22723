-- ===== src/Store/Pages.antt =====
-- A client that follows the cursors reads every event once.
use turnstile_appcheck_gatew.Prelude.{
  ℕ, zero, suc, ◌+◌, ◌≤◌, ◌<◌, String, Bool, true, false, ◌&&◌, ◌||◌, List, [], ◌∷◌, ◌++◌, Option,
  none, some, ◌==◌, if◌then◌else◌, ltb, eqb, length, take, drop, keep_if, All, append_assoc, ◌≡◌,
  refl, ap, sym, ◌∙◌, arith, inl, inr, pos, leb_ℤ,
}
use turnstile_appcheck_gatew.Prelude.Int.{pos_part}
use turnstile_appcheck_gatew.GoStrings.{trim_space}
use turnstile_appcheck_gatew.Audit.Event.{Event}
use turnstile_appcheck_gatew.Store.{
  Filter, Page, normalize_filter, matches, Cursor, no_cursor, CursorCodec, is_invalid,
  encode_cursor, decode_cursor, Database, is_before, cursor_of, last, next_after, page_of,
  page_from, fetch, fetch_if, list,
}
use turnstile_appcheck_gatew.Store.Rows.{
  All-keep_if, All-middle, Cut, IsDescending, IsNumbered, cut, keep-after, keep-true,
  keep_if-IsDescending, keep_if-and, last-append, le_or_lt, ltb-false, ltb-suc, take_short,
}

-- What the traversal relies on of a cursor's encoding: the cursor of the row is read back as it was,
-- and its text is not empty and has no white space around it.
abbrev pub IsCoded : CursorCodec → Event → Type 0
IsCoded codec e =
    (codec.parse (codec.print (cursor_of e)) ≡ some (cursor_of e))
    × ((trim_space (codec.print (cursor_of e)) ≡ codec.print (cursor_of e))
        × ((codec.print (cursor_of e) == "") ≡ false))

decode-print :
    (codec : CursorCodec) (e : Event)
    → IsCoded codec e
    → is_invalid (cursor_of e) ≡ false
    → decode_cursor codec (codec.print (cursor_of e)) ≡ some (cursor_of e)
unfolding decode_cursor
decode-print codec e (round_trip, (trimmed, not_empty)) h =
    rw (trimmed, not_empty, round_trip) (rw h)

numbered-valid : (e : Event) → IsNumbered e → is_invalid (cursor_of e) ≡ false
unfolding is_invalid
numbered-valid e h = ground arith

-- What the traversal relies on of a database in a state that does not change: its answers are those
-- of `rows`, the rows by time and sequence number, both descending, and each has both.
pub record IsHealthy {S : Type 0} (db : Database S) (s : S) : Type 0 where
  pub rows : List Event
  pub descending : IsDescending rows
  pub numbered : All IsNumbered rows
  pub selects :
      (keep : Event → Bool) (limit offset : ℕ)
      → db.select keep limit offset s ≡ some (take limit (drop offset (keep_if keep rows)))
  pub counts : (keep : Event → Bool) → db.count keep s ≡ some (length (keep_if keep rows))

page_all :
    (codec : CursorCodec) (limit total : ℕ) (rows : List Event)
    → ltb limit (length rows) ≡ false
    → page_of codec limit total rows
      ≡ some (record { items = rows; total = total; next_cursor = ""; has_next = false })
unfolding page_of next_after
page_all codec limit total rows h = rw (page_of, h) (rw h)

page_cut :
    (codec : CursorCodec) (limit total : ℕ) (rows items : List Event) (e : Event)
    → ltb limit (length rows) ≡ true
    → take limit rows ≡ items
    → last items ≡ some e
    → is_invalid (cursor_of e) ≡ false
    → page_of codec limit total rows
      ≡ some (record {
        items = items;
        total = total;
        next_cursor = codec.print (cursor_of e);
        has_next = true;
      })
unfolding page_of next_after encode_cursor
page_cut codec limit total rows items e h k l m = rw (page_of, h) (rw k (rw l (rw m (rw h (rw k)))))

add_one : (n : ℕ) → n + 1 ≡ suc n
add_one n = omega arith

pub page_short :
    (codec : CursorCodec) (limit n : ℕ) (rest : List Event)
    → length rest ≤ limit
    → page_of codec limit n (take (limit + 1) rest)
      ≡ some (record { items = rest; total = n; next_cursor = ""; has_next = false })
page_short codec limit n rest h =
    rw (add_one limit, take_short (suc limit) rest (omega arith))
      (page_all codec limit n rest (ltb-false limit (length rest) h))

pub page_long :
    (codec : CursorCodec) (limit n : ℕ) (rest : List Event) (c : Cut limit rest)
    → IsNumbered c.e
    → page_of codec limit n (take (limit + 1) rest)
      ≡ some (record {
        items = c.init ++ c.e ∷ [];
        total = n;
        next_cursor = codec.print (cursor_of c.e);
        has_next = true;
      })
page_long codec limit n rest c h = rw (add_one limit) (
    page_cut codec limit n (take (suc limit) rest) (c.init ++ c.e ∷ []) c.e
      (rw c.more (ltb-suc limit)) c.first (last-append c.init c.e) (numbered-valid c.e h))

module _ {S : Type 0} (db : Database S) (codec : CursorCodec) where
  -- all the pages from a cursor on, in at most `fuel` requests
  pub walk : ℕ → Filter → String → S → Option (List Event)
  walk zero f cursor s = none
  walk (suc fuel) f cursor s =
      walk_on (list db codec (record f { cursor = cursor }) s) λ next. walk fuel f next s
    where
      walk_on : Option Page → (String → Option (List Event)) → Option (List Event)
      walk_on none more = none
      walk_on (some page) more =
          if page.has_next
          then elim (more page.next_cursor) [ none ↦ none | some es ↦ some (page.items ++ es) ]
          else some page.items

module _ {S : Type 0} (db : Database S) (codec : CursorCodec) (f : Filter) (s : S)
    (healthy : IsHealthy db s) (coded : All (IsCoded codec) healthy.rows)
    (from_start : leb_ℤ f.offset (pos 0) ≡ true) where
  abbrev admits : Event → Bool
  admits = matches db.collation (normalize_filter f)

  abbrev limit : ℕ
  limit = pos_part (normalize_filter f).limit

  limit_positive : 0 < limit
  unfolding normalize_filter
  limit_positive = ground arith

  -- the rows that a cursor leaves
  abbrev left_by : Cursor → List Event
  left_by c = keep_if (λ e. admits e && (eqb c.timestamp 0 || is_before c e)) healthy.rows

  no_offset : (b : Bool) → (if b then pos_part f.offset else 0) ≡ 0
  no_offset b = ground arith

  fetch_page :
      (cursor : String) (c : Cursor) (n : ℕ)
      → fetch db codec (normalize_filter (record f { cursor = cursor })) c n s
        ≡ page_of codec limit n (take (limit + 1) (left_by c))
  unfolding fetch normalize_filter matches page_from
  fetch_page cursor c n = rw (healthy.selects, no_offset (eqb c.timestamp 0)) refl

  counted :
      (b : Bool) (p : Event → Bool) → (n : ℕ) × ((if b then db.count p s else some 0) ≡ some n)
  counted true p = (length (keep_if p healthy.rows), healthy.counts p)
  counted false p = (0, refl)

  list_page :
      (cursor : String) (c : Cursor)
      → decode_cursor codec cursor ≡ some c
      → (n : ℕ) × (list db codec (record f { cursor = cursor }) s
          ≡ page_of codec limit n (take (limit + 1) (left_by c)))
  unfolding list fetch_if normalize_filter
  list_page cursor c h =
      let (n, t) =
        counted f.include_total
          (matches db.collation (normalize_filter (record f { cursor = cursor }))) in
      (n, rw h (rw t (fetch_page cursor c n)))

  -- the rows that the filter admits
  abbrev pub admitted : List Event
  admitted = keep_if admits healthy.rows

  -- what holds of every row holds of an admitted one
  at_row :
      (P : Event → Type 0) (all : All P healthy.rows) (xs : List Event) (e : Event)
      (ys : List Event)
      → admitted ≡ xs ++ e ∷ ys
      → P e
  at_row P all xs e ys h =
      let kept = All-keep_if P admits healthy.rows all in All-middle P xs e ys (rw h at kept)

  timed : (e : Event) → IsNumbered e → eqb e.timestamp 0 ≡ false
  timed e n = ground arith

  left_after :
      (xs : List Event) (e : Event) (ys : List Event)
      → admitted ≡ xs ++ e ∷ ys
      → left_by (cursor_of e) ≡ ys
  left_after xs e ys h =
      let sorted = keep_if-IsDescending admits healthy.rows healthy.descending in
      rw (timed e (at_row IsNumbered healthy.numbered xs e ys h)) (
        keep_if-and admits (is_before (cursor_of e)) healthy.rows
        ∙ rw h (keep-after xs e ys (rw h at sorted)))

  walk_from :
      (fuel : ℕ) (xs rest : List Event) (cursor : String) (c : Cursor)
      → decode_cursor codec cursor ≡ some c
      → left_by c ≡ rest
      → admitted ≡ xs ++ rest
      → length rest < fuel
      → walk db codec fuel f cursor s ≡ some rest
  unfolding walk
  walk_from zero xs rest cursor c d l a h = absurd (omega arith)
  walk_from (suc fuel) xs rest cursor c d l a h =
      let (n, page) = list_page cursor c d in
      let p = rw l at page in
      elim (le_or_lt (length rest) limit) [
        | inl short ↦ rw (p ∙ page_short codec limit n rest short)
        | inr long ↦
            let t = cut limit rest limit_positive long in
            let at_e : admitted ≡ (xs ++ t.init) ++ t.e ∷ t.ys =
              a ∙ rw t.whole (sym (append_assoc xs t.init (t.e ∷ t.ys))) in
            let num = at_row IsNumbered healthy.numbered (xs ++ t.init) t.e t.ys at_e in
            let ih =
              walk_from fuel (xs ++ t.init ++ t.e ∷ []) t.ys (codec.print (cursor_of t.e))
                (cursor_of t.e)
                (decode-print codec t.e (at_row (IsCoded codec) coded (xs ++ t.init) t.e t.ys at_e)
                  (numbered-valid t.e num))
                (left_after (xs ++ t.init) t.e t.ys at_e)
                (at_e ∙ sym (append_assoc (xs ++ t.init) (t.e ∷ []) t.ys))
                (omega (arith, t.fewer)) in
            rw (p ∙ page_long codec limit n rest t num)
              (rw ih (ap some (append_assoc t.init (t.e ∷ []) t.ys ∙ sym t.whole)))
      ]

  -- A client that asks for the first page and then follows the cursor of each page gets all the rows
  -- that the filter admits, once each and in order, whatever the limit. The database answers by its
  -- rows, which do not change meanwhile; the cursors of the rows are read back as they were printed; the
  -- filter has no offset.
  pub walk_complete :
      (fuel : ℕ) → length admitted < fuel → walk db codec fuel f "" s ≡ some admitted
  unfolding decode_cursor trim_space
  walk_complete fuel h =
      walk_from fuel [] admitted "" no_cursor refl (keep-true admits healthy.rows) refl h
