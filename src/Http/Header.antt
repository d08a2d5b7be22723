-- ===== src/Http/Header.antt =====
-- `http.Header` of Go: values under canonical names.
use Prim.Native.Char.{code}
use turnstile_appcheck_gatew.Prelude.{
  ℕ, String, ◌≡◌, Bool, true, ◌&&◌, ◌||◌, List, [], ◌∷◌, ◌++◌, Option, none, some, arith, ◌==◌, leb,
  eqb, eq_iff, if◌then◌else◌,
}
use turnstile_appcheck_gatew.Dict.{Dict, lookup, insert, lookup-insert}
use turnstile_appcheck_gatew.GoStrings.{upper_byte, lower_byte}

abbrev pub Header : Type 0
Header = Dict (List String)

-- the bytes of an RFC 7230 token
token_byte : ℕ → Bool
token_byte c =
    (leb b'a' c && leb c b'z')
    || ((leb b'A' c && leb c b'Z')
        || ((leb b'0' c && leb c b'9')
            || ((eqb c b'!' || (leb b'#' c && leb c b'\''))
                || ((eqb c b'*' || eqb c b'+')
                    || ((eqb c b'-' || eqb c b'.')
                        || ((leb b'^' c && leb c b'`') || (eqb c b'|' || eqb c b'~')))))))

all_tokens : String → Bool
unfolding token_byte
all_tokens String.[] = true
all_tokens (String.◌∷◌ c s) = token_byte (code c) && all_tokens s

-- the first letter, and each after a dash, in upper case; the others in lower case
title : Bool → String → String
unfolding upper_byte lower_byte
title up String.[] = ""
title up (String.◌∷◌ c s) =
    let rest = title (eqb (code c) b'-') s in
    String.◌∷◌ (if up then upper_byte c else lower_byte c) rest

-- http.CanonicalHeaderKey(s): a name with a byte that no token has is left as it is
unfoldable pub canonical_key : String → String
unfolding title all_tokens
canonical_key s = if all_tokens s then title true s else s

abbrev or_empty : Option (List String) → List String
or_empty none = []
or_empty (some vs) = vs

abbrev first : List String → String
first [] = ""
first (v ∷ vs) = v

-- h.Values(key)
unfoldable pub values : Header → String → List String
values h key = or_empty (lookup (canonical_key key) h)

-- h.Get(key)
unfoldable pub get : Header → String → String
unfolding values
get h key = first (values h key)

-- h.Set(key, value)
unfoldable pub set : Header → String → String → Header
set h key value = insert (canonical_key key) (value ∷ []) h

-- h.Add(key, value)
unfoldable pub add : Header → String → String → Header
unfolding values
add h key value = insert (canonical_key key) (values h key ++ value ∷ []) h

-- Reads after a write: the written key has the value, the others are as they were.
pub values-set :
    (h : Header) (key other value : String)
    → values (set h key value) other
      ≡ (if canonical_key key == canonical_key other then value ∷ [] else values h other)
unfolding values set
values-set h key other value =
    ground (arith, lookup-insert (canonical_key key) (canonical_key other) (value ∷ []) h)

pub values-add :
    (h : Header) (key other value : String)
    → values (add h key value) other ≡ (
        if canonical_key key == canonical_key other
        then values h other ++ value ∷ []
        else values h other)
unfolding values add
values-add h key other value = ground (
  arith,
  eq_iff (canonical_key key) (canonical_key other),
  lookup-insert (canonical_key key) (canonical_key other) (values h key ++ value ∷ []) h,
)
