-- ===== src/Config/Paths/Clean.antt =====
-- internal/config/config.go: a base path that is normalised is a clean path.
use Prim.Native.String.{◌++◌}
use Prim.Native.Char.{Char, code}
use text.Mathlib.TextLemmas.{nil-append, cons-append, append-nil, append-ne-nil_of_right_ne-nil}
use turnstile_appcheck_gatew.Prelude.{
  All, String, Bool, ne→==-false, true, false, not, ◌&&◌, List, [], ◌∷◌, ◌==◌, eq_iff, ◌≡◌, ◌≢◌,
  refl, sym, ap, ◌∙◌, if◌then◌else◌, eqb, Bool-cases, inl, inr,
}
use turnstile_appcheck_gatew.GoStrings.{
  has_prefix, trim_space, split_byte, cons_part, trim_suffix_byte,
}
use turnstile_appcheck_gatew.Config.Paths.{
  default_subpath, up, push_segment, clean_segments, path_before, path_of, clean_rooted, clean,
  rooted, normalize_subpath, normalize_health_path,
}

-- no byte is a slash
unfoldable pub has_no_slash : String → Bool
has_no_slash String.[] = true
has_no_slash (String.◌∷◌ c s) = not (eqb (code c) b'/') && has_no_slash s

-- an element of a clean path: not empty, not `.` and not `..`, and with no slash in it
abbrev pub IsSegment : String → Type 0
IsSegment s =
    ((s == "") ≡ false) × ((s == ".") ≡ false) × ((s == "..") ≡ false) × (has_no_slash s ≡ true)

-- `/`, or elements with a slash before each
abbrev pub IsClean : String → Type 0
IsClean p = (stack : List String) × (p ≡ path_of stack) × All IsSegment stack

abbrev pub HasNoSlash : String → Type 0
HasNoSlash s = has_no_slash s ≡ true

cons_part-HasNoSlash :
    (c : Char) (parts : List String)
    → eqb (code c) b'/' ≡ false
    → All HasNoSlash parts
    → All HasNoSlash (cons_part c parts)
unfolding cons_part has_no_slash
cons_part-HasNoSlash c [] h a = (rw h refl, tt)
cons_part-HasNoSlash c (p ∷ parts) h a = (rw h a.0, a.1)

split_byte-HasNoSlash : (s : String) → All HasNoSlash (split_byte b'/' s)
unfolding split_byte has_no_slash
split_byte-HasNoSlash String.[] = (refl, tt)
split_byte-HasNoSlash (String.◌∷◌ c s) = elim (Bool-cases (eqb (code c) b'/')) [
  | inl e ↦ rw e (refl, split_byte-HasNoSlash s)
  | inr e ↦ rw e (cons_part-HasNoSlash c (split_byte b'/' s) e (split_byte-HasNoSlash s))
]

up-All : (stack : List String) → All IsSegment stack → All IsSegment (up stack)
unfolding up
up-All [] a = tt
up-All (s ∷ stack) a = a.1

push_segment-All :
    (stack : List String) (seg : String)
    → All IsSegment stack
    → HasNoSlash seg
    → All IsSegment (push_segment stack seg)
unfolding push_segment
push_segment-All stack seg a h = elim (Bool-cases (seg == "")) [
  | inl e ↦ rw e a
  | inr e ↦ elim (Bool-cases (seg == ".")) [
    | inl d ↦ rw e (rw d a)
    | inr d ↦ elim (Bool-cases (seg == "..")) [
      | inl u ↦ rw e (rw d (rw u (up-All stack a)))
      | inr u ↦ rw e (rw d (rw u ((e, d, u, h), a)))
    ]
  ]
]

clean_segments-All :
    (stack segs : List String)
    → All IsSegment stack
    → All HasNoSlash segs
    → All IsSegment (clean_segments stack segs)
unfolding clean_segments
clean_segments-All stack [] a h = a
clean_segments-All stack (seg ∷ segs) a h =
    clean_segments-All (push_segment stack seg) segs (push_segment-All stack seg a h.0) h.1

clean_rooted-IsClean : (p : String) → IsClean (clean_rooted p)
unfolding clean_rooted
clean_rooted-IsClean p = (
  clean_segments [] (split_byte b'/' p),
  refl,
  clean_segments-All [] (split_byte b'/' p) tt (split_byte-HasNoSlash p),
)

and_right : (a b : Bool) → (a && b) ≡ true → b ≡ true
and_right true b h = h
and_right false b h = cc

-- a suffix that is cut off is cut off the last element
trim_of_no_slash : (s : String) → HasNoSlash s → trim_suffix_byte b'/' s ≡ s
unfolding trim_suffix_byte has_no_slash
trim_of_no_slash String.[] h = refl
trim_of_no_slash (String.◌∷◌ c String.[]) h = elim (Bool-cases (eqb (code c) b'/')) [
  | inl e ↦ (let h' = rw e at h in cc)
  | inr e ↦ rw e refl
]
trim_of_no_slash (String.◌∷◌ c (String.◌∷◌ d s)) h =
    ap (λ t. String.◌∷◌ c t)
      (trim_of_no_slash (String.◌∷◌ d s)
        (and_right (not (eqb (code c) b'/')) (has_no_slash (String.◌∷◌ d s)) h))

trim_cons :
    (c : Char) (s : String)
    → (s == "") ≡ false
    → trim_suffix_byte b'/' (String.◌∷◌ c s) ≡ String.◌∷◌ c (trim_suffix_byte b'/' s)
unfolding trim_suffix_byte
trim_cons c String.[] h = cc
trim_cons c (String.◌∷◌ d s) h = refl

ne_nil : (s : String) → (s == "") ≡ false → s ≢ ""
ne_nil s h e = (let t = (eq_iff s "").1 e in cc)

append_not_empty : (x y : String) → (y == "") ≡ false → (x ++ y == "") ≡ false
append_not_empty x y h = ne→==-false (x ++ y) "" (append-ne-nil_of_right_ne-nil x (ne_nil y h))

-- a text that ends in no slash, whatever stands before
trim_append :
    (x y : String)
    → (y == "") ≡ false
    → trim_suffix_byte b'/' y ≡ y
    → trim_suffix_byte b'/' (x ++ y) ≡ x ++ y
trim_append String.[] y h e = rw (nil-append y) e
trim_append (String.◌∷◌ c x) y h e =
    rw (cons-append c x y) (
      trim_cons c (x ++ y) (append_not_empty x y h)
      ∙ ap (λ s. String.◌∷◌ c s) (trim_append x y h e))

trim_path_before :
    (stack : List String) (rest : String)
    → (rest == "") ≡ false
    → trim_suffix_byte b'/' rest ≡ rest
    → trim_suffix_byte b'/' (path_before stack rest) ≡ path_before stack rest
unfolding path_before
trim_path_before [] rest h e = e
trim_path_before (seg ∷ stack) rest h e =
    let longer = append_not_empty seg rest h in
    trim_path_before stack ("/" ++ (seg ++ rest)) (append_not_empty "/" (seg ++ rest) longer)
      (trim_append "/" (seg ++ rest) longer (trim_append seg rest h e))

trim_path_of :
    (stack : List String)
    → All IsSegment stack
    → (path_of stack == "/") ≡ false
    → trim_suffix_byte b'/' (path_of stack) ≡ path_of stack
unfolding path_of path_before
trim_path_of [] a h = cc
trim_path_of (seg ∷ stack) a h = rw (append-nil seg) (
    trim_path_before stack ("/" ++ seg) (append_not_empty "/" seg a.0.0)
      (trim_append "/" seg a.0.0 (trim_of_no_slash seg a.0.3)))

-- path.Clean has cleaned the path already
trimmed-IsClean :
    (p : String)
    → IsClean p
    → IsClean (if p == "." then "/" else if p == "/" then p else trim_suffix_byte b'/' p)
unfolding path_of
trimmed-IsClean p (stack, e, a) = elim (Bool-cases (p == ".")) [
  | inl dot ↦ rw dot ([], refl, tt)
  | inr dot ↦ elim (Bool-cases (p == "/")) [
    | inl root ↦ rw dot (rw root (stack, e, a))
    | inr root ↦ rw dot (
        rw root (
          stack,
          ap (trim_suffix_byte b'/') e ∙ trim_path_of stack a (ap (λ q. q == "/") (sym e) ∙ root),
          a,
        ))
  ]
]

slash_first : (s : String) → has_prefix ("/" ++ s) "/" ≡ true
unfolding has_prefix
slash_first s = rw (cons-append "/" "" s) refl

rooted-has_prefix : (s : String) → has_prefix (rooted s) "/" ≡ true
unfolding rooted
rooted-has_prefix s = elim (Bool-cases (has_prefix s "/")) [
  | inl e ↦ rw e e
  | inr e ↦ rw e (slash_first s)
]

clean-IsClean : (s : String) → IsClean (clean (rooted s))
unfolding clean
clean-IsClean s = rw (rooted-has_prefix s) (clean_rooted-IsClean (rooted s))

health-IsClean : (s : String) → IsClean (if s == "" then "/" else clean (rooted s))
unfolding path_of
health-IsClean s = elim (Bool-cases (s == "")) [
  | inl e ↦ rw e ([], refl, tt)
  | inr e ↦ rw e (clean-IsClean s)
]

-- Whatever is given as a base path or as the path of a probe, what is registered is `/` or a row of
-- elements with a slash before each, none of them empty, `.` or `..`; for the base path, the dots,
-- the doubled slashes and the slash at the end are gone. A blank base path is `/appcheck`, and a blank
-- path of a probe is `/`.
pub normalize_subpath-IsClean :
    (input : String)
    → IsClean (normalize_subpath input)
      × IsClean (normalize_health_path input)
      × ((trim_space input == "") ≡ true
          → (normalize_subpath input ≡ "/appcheck") × (normalize_health_path input ≡ "/"))
unfolding normalize_subpath normalize_health_path has_prefix split_byte trim_suffix_byte
normalize_subpath-IsClean input =
    let s = trim_space input in
    let cleaned = clean (rooted (if s == "" then default_subpath else s)) in
    (
      trimmed-IsClean cleaned (clean-IsClean (if s == "" then default_subpath else s)),
      health-IsClean s,
      λ blank. rw blank (refl, refl),
    )
