-- ===== src/GoStrings.antt =====
-- The package `strings` of Go, as far as the program calls it. A Go string is a sequence of bytes;
-- it stands here as a `String` whose characters are those bytes, code points 0 to 255, so that
-- `len(s)` is the number of characters and every Go string has exactly one model.
-- `strings.ToLower` and `strings.ToUpper` are those of ASCII text: bytes from 0x80 on are left alone.
use Prim.Native.Char.{Char, code, nul}
use turnstile_appcheck_gatew.Prelude.{
  ℤ, pos, sub_ℕ, ◌+◌, ◌*◌, ◌^◌, ℕ, zero, suc, ◌-◌, ◌/◌, ◌%◌, String, Bool, true, false, ◌&&◌, ◌||◌,
  List, [], ◌∷◌, Option, none, some, ◌==◌, ltb, leb, eqb, if◌then◌else◌,
}

-- len(s)
unfoldable pub len : String → ℕ
len String.[] = 0
len (String.◌∷◌ c s) = suc (len s)

-- s[:n], for n within the length
unfoldable pub slice_to : String → ℕ → String
slice_to s zero = ""
slice_to String.[] (suc n) = ""
slice_to (String.◌∷◌ c s) (suc n) = String.◌∷◌ c (slice_to s n)

-- strings.HasPrefix(s, prefix)
unfoldable pub has_prefix : String → String → Bool
has_prefix s String.[] = true
has_prefix String.[] (String.◌∷◌ d p) = false
has_prefix (String.◌∷◌ c s) (String.◌∷◌ d p) = eqb (code c) (code d) && has_prefix s p

-- strings.TrimPrefix of a prefix of one byte
unfoldable pub trim_prefix_byte : ℕ → String → String
trim_prefix_byte b String.[] = ""
trim_prefix_byte b (String.◌∷◌ c s) = if eqb (code c) b then s else String.◌∷◌ c s

-- strings.TrimSuffix of a suffix of one byte
unfoldable pub trim_suffix_byte : ℕ → String → String
trim_suffix_byte b String.[] = ""
trim_suffix_byte b (String.◌∷◌ c String.[]) = if eqb (code c) b then "" else String.◌∷◌ c ""
trim_suffix_byte b (String.◌∷◌ c (String.◌∷◌ d s)) =
    String.◌∷◌ c (trim_suffix_byte b (String.◌∷◌ d s))

-- strings.TrimLeft(s, b)
unfoldable pub trim_left_byte : ℕ → String → String
trim_left_byte b String.[] = ""
trim_left_byte b (String.◌∷◌ c s) =
    let rest = trim_left_byte b s in if eqb (code c) b then rest else String.◌∷◌ c s

-- strings.TrimRight of a cutset of one byte
unfoldable pub trim_right_byte : ℕ → String → String
trim_right_byte b String.[] = ""
trim_right_byte b (String.◌∷◌ c s) =
    let rest = trim_right_byte b s in
    if eqb (code c) b && (rest == "") then "" else String.◌∷◌ c rest

-- strings.Contains(s, part)
unfoldable pub contains : String → String → Bool
unfolding has_prefix
contains String.[] part = part == ""
contains (String.◌∷◌ c s) part = has_prefix (String.◌∷◌ c s) part || contains s part

-- unicode.IsSpace below 0x80
ascii_space : ℕ → Bool
ascii_space c = eqb c 32 || (leb 9 c && leb c 13)

-- the last byte of the white space U+2000 to U+200A, U+2028, U+2029 and U+202F, after E2 80
general_space : ℕ → Bool
general_space d = (leb 0x80 d && leb d 0x8a) || (eqb d 0xa8 || (eqb d 0xa9 || eqb d 0xaf))

-- The number of bytes of a white-space character that begins with the bytes a, b, d; 0 if none
-- does. Outside ASCII these are U+0085, U+00A0, U+1680, U+2000 to U+200A, U+2028, U+2029, U+202F,
-- U+205F and U+3000, in UTF-8.
space_width : ℕ → ℕ → ℕ → ℕ
unfolding ascii_space general_space
space_width a b d =
    if ascii_space a
    then 1
    else if eqb a 0xc2 && (eqb b 0x85 || eqb b 0xa0)
    then 2
    else if eqb a 0xe1 && (eqb b 0x9a && eqb d 0x80)
    then 3
    else if eqb a 0xe2 && ((eqb b 0x80 && general_space d) || (eqb b 0x81 && eqb d 0x9f))
    then 3
    else if eqb a 0xe3 && (eqb b 0x80 && eqb d 0x80)
    then 3
    else 0

-- the byte at an index, or 0 past the end
byte_at : String → ℕ → ℕ
byte_at String.[] i = 0
byte_at (String.◌∷◌ c s) zero = code c
byte_at (String.◌∷◌ c s) (suc i) = byte_at s i

-- skips `n` more bytes of the character at hand, then goes on to the next
trim_left_from : ℕ → String → String
unfolding space_width byte_at
trim_left_from n String.[] = ""
trim_left_from (suc n) (String.◌∷◌ c s) = trim_left_from n s
trim_left_from zero (String.◌∷◌ c s) =
    let w = space_width (code c) (byte_at s 0) (byte_at s 1) in
    let rest = trim_left_from (w - 1) s in if eqb w 0 then String.◌∷◌ c s else rest

is_blank : String → Bool
unfolding trim_left_from
is_blank s = trim_left_from 0 s == ""

-- cuts the longest end that is all white space
trim_right : String → String
unfolding is_blank
trim_right String.[] = ""
trim_right (String.◌∷◌ c s) =
    let rest = trim_right s in if is_blank (String.◌∷◌ c s) then "" else String.◌∷◌ c rest

-- strings.TrimSpace(s)
unfoldable pub trim_space : String → String
unfolding trim_right trim_left_from
trim_space s = trim_right (trim_left_from 0 s)

-- the byte that stands in `to` where `from` has `c`
translate : String → String → Char → Char
translate (String.◌∷◌ a from) (String.◌∷◌ b to) c =
    if eqb (code a) (code c) then b else translate from to c
translate _ _ c = c

-- an ASCII letter in lower case; any other byte as it is
unfoldable pub lower_byte : Char → Char
unfolding translate
lower_byte c = translate "ABCDEFGHIJKLMNOPQRSTUVWXYZ" "abcdefghijklmnopqrstuvwxyz" c

-- an ASCII letter in upper case; any other byte as it is
unfoldable pub upper_byte : Char → Char
unfolding translate
upper_byte c = translate "abcdefghijklmnopqrstuvwxyz" "ABCDEFGHIJKLMNOPQRSTUVWXYZ" c

-- strings.ToLower(s), on ASCII
unfoldable pub to_lower : String → String
unfolding lower_byte
to_lower String.[] = ""
to_lower (String.◌∷◌ c s) = String.◌∷◌ (lower_byte c) (to_lower s)

-- strings.ToUpper(s), on ASCII
unfoldable pub to_upper : String → String
unfolding upper_byte
to_upper String.[] = ""
to_upper (String.◌∷◌ c s) = String.◌∷◌ (upper_byte c) (to_upper s)

-- strings.EqualFold(s, t), on ASCII
unfoldable pub equal_fold : String → String → Bool
unfolding to_lower
equal_fold s t = to_lower s == to_lower t

-- puts a byte in front of the first part
unfoldable pub cons_part : Char → List String → List String
cons_part c [] = String.◌∷◌ c "" ∷ []
cons_part c (part ∷ parts) = String.◌∷◌ c part ∷ parts

-- strings.Split(s, sep), for a separator of one byte
unfoldable pub split_byte : ℕ → String → List String
unfolding cons_part
split_byte b String.[] = "" ∷ []
split_byte b (String.◌∷◌ c s) =
    let parts = split_byte b s in if eqb (code c) b then "" ∷ parts else cons_part c parts

-- strings.Cut(s, sep), for a separator of one byte: what stands before it, if it is found
unfoldable pub cut_before : ℕ → String → Option String
cut_before b String.[] = none
cut_before b (String.◌∷◌ c s) =
    let rest = cut_before b s in
    if eqb (code c) b then some "" else elim rest [ none ↦ none | some p ↦ some (String.◌∷◌ c p) ]

-- the decimal digits of a number, before `rest`; the fuel is at least the number of digits
decimal_from : ℕ → ℕ → String → String
decimal_from zero n rest = rest
decimal_from (suc f) n rest =
    let here = String.◌∷◌ (digit (n % 10) "0123456789") rest in
    let more = decimal_from f (n / 10) here in if ltb n 10 then here else more
  where
    digit : ℕ → String → Char
    digit i String.[] = nul
    digit zero (String.◌∷◌ c s) = c
    digit (suc i) (String.◌∷◌ c s) = digit i s

-- fmt.Sprintf("%d", n), for n at least 0
unfoldable pub decimal : ℕ → String
unfolding decimal_from
decimal n = decimal_from (suc n) n ""

-- strings.CutSuffix(s, suffix): what stands before the suffix, if s ends in it
unfoldable pub cut_suffix : String → String → Option String
cut_suffix String.[] suffix = if suffix == "" then some "" else none
cut_suffix (String.◌∷◌ c s) suffix =
    let rest = cut_suffix s suffix in
    if String.◌∷◌ c s == suffix
    then some ""
    else elim rest [ none ↦ none | some p ↦ some (String.◌∷◌ c p) ]

-- the value of a text of decimal digits, after `n`
digits_from : ℕ → String → Option ℕ
digits_from n String.[] = some n
digits_from n (String.◌∷◌ c s) =
    let rest = digits_from (10 * n + (code c - 48)) s in
    if leb 48 (code c) && leb (code c) 57 then rest else none

-- a sign, then digits: the sign is true for a minus
signed : String → Bool × String
signed String.[] = (false, "")
signed (String.◌∷◌ c s) =
    if eqb (code c) 45
    then (true, s)
    else if eqb (code c) 43
    then (false, s)
    else (false, String.◌∷◌ c s)

-- strconv.Atoi(s), for an `int` of 64 bits
unfoldable pub atoi : String → Option ℤ
unfolding digits_from signed
atoi s =
    let (minus, digits) = signed s in
    if digits == "" then none else elim (digits_from 0 digits) [
      | none ↦ none
      | some n ↦
          if minus
          then if leb n (2 ^ 63) then some (sub_ℕ 0 n) else none
          else if ltb n (2 ^ 63)
          then some (pos n)
          else none
    ]
