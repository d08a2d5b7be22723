-- ===== src/Store/Offsets.antt =====
-- A page by its offset.
use turnstile_appcheck_gatew.Prelude.{
  ℕ, zero, suc, ◌+◌, ◌<◌, String, Bool, true, List, [], ◌∷◌, some, if◌then◌else◌, ltb, length, take,
  drop, keep_if, All, ◌≡◌, refl, ap, ◌∙◌, arith, inl, inr,
}
use turnstile_appcheck_gatew.Prelude.Int.{pos_part}
use turnstile_appcheck_gatew.Audit.Event.{Event}
use turnstile_appcheck_gatew.Store.{
  Filter, normalize_filter, matches, no_cursor, CursorCodec, cursor_of, decode_cursor, Database,
  page_of, page_from, fetch, fetch_if, list,
}
use turnstile_appcheck_gatew.Store.Rows.{
  IsNumbered, cut, le_or_lt, ltb-false, All-keep_if, All-middle, take_short, keep-true,
}
use turnstile_appcheck_gatew.Store.Pages.{IsHealthy, page_short, page_long}

All-drop : (P : Event → Type 0) (n : ℕ) (es : List Event) → All P es → All P (drop n es)
All-drop P zero es h = h
All-drop P (suc n) [] h = tt
All-drop P (suc n) (e ∷ es) h = All-drop P n es h.1

take-take : (n : ℕ) (es : List Event) → take n (take (suc n) es) ≡ take n es
take-take zero es = refl
take-take (suc n) [] = refl
take-take (suc n) (e ∷ es) = ap (λ l. e ∷ l) (take-take n es)

ltb-true : (m n : ℕ) → m < n → ltb m n ≡ true
ltb-true m n h = ground arith

-- a page of numbered rows is answered, and has the first `limit` of them
page_items :
    (codec : CursorCodec) (limit total : ℕ) (rest : List Event)
    → 0 < limit
    → All IsNumbered rest
    → (next : String) × (page_of codec limit total (take (limit + 1) rest)
        ≡ some (record {
          items = take limit rest;
          total = total;
          next_cursor = next;
          has_next = ltb limit (length rest);
        }))
page_items codec limit total rest p h = elim (le_or_lt (length rest) limit) [
  | inl short ↦ (
    "",
    rw (take_short limit rest short, ltb-false limit (length rest) short)
        (page_short codec limit total rest short),
  )
  | inr long ↦
      let c = cut limit rest p long in
      let num : IsNumbered c.e = All-middle IsNumbered c.init c.e c.ys (rw c.whole at h) in
      (
        codec.print (cursor_of c.e),
        rw (← take-take limit rest, c.first, ltb-true limit (length rest) long)
            (page_long codec limit total rest c num),
      )
]

module _ {S : Type 0} (db : Database S) (codec : CursorCodec) (s : S)
    (healthy : IsHealthy db s) where
  -- the rows that a filter admits
  abbrev pub admitted_by : Filter → List Event
  admitted_by f = keep_if (matches db.collation (normalize_filter f)) healthy.rows

  abbrev pub limit_of : Filter → ℕ
  limit_of f = pos_part (normalize_filter f).limit

  limit_positive : (f : Filter) → 0 < limit_of f
  unfolding normalize_filter
  limit_positive f = ground arith

  fetch_offset :
      (f : Filter) (n : ℕ)
      → fetch db codec (normalize_filter f) no_cursor n s
        ≡ page_of codec
            (limit_of f)
            n
            (take (limit_of f + 1) (drop (pos_part f.offset) (admitted_by f)))
  unfolding fetch page_from normalize_filter
  fetch_offset f n =
      rw (healthy.selects, keep-true (matches db.collation (normalize_filter f)) healthy.rows) refl

  total_is :
      (b : Bool) (p : Event → Bool)
      → b ≡ true
      → (if b then db.count p s else some 0) ≡ some (length (keep_if p healthy.rows))
  total_is b p h = rw h (healthy.counts p)

  -- Without a cursor, the page has the rows from the offset on, at most the limit, which is capped.
  pub list_offset :
      (f : Filter)
      → decode_cursor codec f.cursor ≡ some no_cursor
      → f.include_total ≡ true
      → (next : String) × (list db codec f s
          ≡ some (record {
            items = take (limit_of f) (drop (pos_part f.offset) (admitted_by f));
            total = length (admitted_by f);
            next_cursor = next;
            has_next = ltb (limit_of f) (length (drop (pos_part f.offset) (admitted_by f)));
          }))
  unfolding list fetch_if normalize_filter
  list_offset f h t =
      let rest = drop (pos_part f.offset) (admitted_by f) in
      let (next, page) =
        page_items codec (limit_of f) (length (admitted_by f)) rest (limit_positive f) (
          All-drop IsNumbered (pos_part f.offset) _
            (All-keep_if IsNumbered _ healthy.rows healthy.numbered)) in
      (
        next,
        rw h (
            rw (total_is f.include_total (matches db.collation (normalize_filter f)) t)
              (fetch_offset f (length (admitted_by f)) ∙ page)),
      )
