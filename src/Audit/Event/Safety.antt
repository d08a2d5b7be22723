-- ===== src/Audit/Event/Safety.antt =====
-- What a prepared event may hold.
use turnstile_appcheck_gatew.Prelude.{
  ℕ, zero, suc, ◌≤◌, String, Bool, true, false, List, [], ◌∷◌, ◌==◌, leb, leb→le, eqb,
  if◌then◌else◌, All, ◌≡◌, refl, arith, Bool-cases, inl, inr,
}
use turnstile_appcheck_gatew.GoStrings.{len, slice_to, contains, to_lower, trim_space}
use turnstile_appcheck_gatew.Audit.Event.{
  Event, Time, MetaValue, text, stringer, int, int_64, float, flag, nil, other, Metadata, truncate,
  contains_any, is_sensitive_key, safe_value, safe_metadata, prepare_event, or_default,
}

len-slice_to : (s : String) (n : ℕ) → len (slice_to s n) ≤ n
unfolding len slice_to
len-slice_to s zero = omega arith
len-slice_to String.[] (suc n) = omega arith
len-slice_to (String.◌∷◌ c s) (suc n) = omega (arith, len-slice_to s n)

len-truncate : (s : String) (n : ℕ) → eqb n 0 ≡ false → len (truncate s n) ≤ n
unfolding truncate
len-truncate s n h = elim (Bool-cases (leb (len s) n)) [
  | inl e ↦ rw h (rw e (leb→le (len s) n e))
  | inr e ↦ rw h (rw e (len-slice_to s n))
]

-- a text of at most 256 bytes, or a value that is no text
abbrev pub IsSmall : MetaValue → Type 0
IsSmall (text v) = len v ≤ 256
IsSmall (stringer v) = ⊥
IsSmall (other v) = ⊥
IsSmall v = Unit

safe_value-IsSmall : (v : MetaValue) → IsSmall (safe_value v)
unfolding safe_value
safe_value-IsSmall (text v) = len-truncate v 256 refl
safe_value-IsSmall (stringer v) = len-truncate v 256 refl
safe_value-IsSmall (other v) = len-truncate v 256 refl
safe_value-IsSmall (int n) = tt
safe_value-IsSmall (int_64 n) = tt
safe_value-IsSmall (float x) = tt
safe_value-IsSmall (flag b) = tt
safe_value-IsSmall nil = tt

-- what no key may hold
abbrev pub private_words : List String
private_words =
    "password" ∷ "passwd" ∷ "secret" ∷ "token" ∷ "authorization" ∷ "cookie" ∷ "set-cookie" ∷ "body"
    ∷ "payload" ∷ "credential" ∷ "service_account" ∷ "apikey" ∷ "api_key" ∷ []

abbrev pub HasNone : List String → String → Type 0
HasNone words key = All (λ (word : String). contains (to_lower key) word ≡ false) words

-- The key has none of the words in it, in whatever case, and the value is small.
abbrev pub IsSafe : String × MetaValue → Type 0
IsSafe (key, value) = HasNone private_words (trim_space key) × IsSmall value

contains_any-none :
    (key : String) (words : List String)
    → contains_any key words ≡ false
    → All (λ (word : String). contains key word ≡ false) words
unfolding contains_any
contains_any-none key [] h = tt
contains_any-none key (word ∷ words) h = elim (Bool-cases (contains key word)) [
  | inl e ↦ (let h' = rw e at h in cc)
  | inr e ↦ (e, contains_any-none key words (rw e at h))
]

is_sensitive_key-HasNone :
    (key : String) → is_sensitive_key key ≡ false → HasNone private_words (trim_space key)
unfolding is_sensitive_key
is_sensitive_key-HasNone key h = contains_any-none (to_lower (trim_space key)) private_words h

safe_metadata-All : (m : Metadata) → All IsSafe (safe_metadata m)
unfolding safe_metadata
safe_metadata-All [] = tt
safe_metadata-All ((key, value) ∷ more) = elim (Bool-cases (is_sensitive_key key)) [
  | inl e ↦ rw e (safe_metadata-All more)
  | inr e ↦
      rw e ((is_sensitive_key-HasNone key e, safe_value-IsSmall value), safe_metadata-All more)
]

or_default-ne :
    (value fallback : String) → (fallback == "") ≡ false → (or_default value fallback == "") ≡ false
or_default-ne value fallback h = chosen (value == "") refl
  where
    chosen : (b : Bool) → (value == "") ≡ b → ((if b then fallback else value) == "") ≡ false
    chosen true e = h
    chosen false e = e

-- Whatever the event, the prepared one has no metadata under a key that holds, in whatever case, one of
-- the private words (password, secret, token, cookie, body, payload, credential, api_key and the rest),
-- no metadata text of more than 256 bytes, a user agent and a message of at most 512 bytes each, and an
-- actor that is not empty.
pub prepare_event-IsSafe :
    (now : Time) (random : String) (e : Event)
    → All IsSafe (prepare_event now random e).metadata
      × (len (prepare_event now random e).user_agent ≤ 512)
      × (len (prepare_event now random e).message ≤ 512)
      × (((prepare_event now random e).actor == "") ≡ false)
unfolding prepare_event
prepare_event-IsSafe now random e = (
  safe_metadata-All e.metadata,
  len-truncate e.user_agent 512 refl,
  len-truncate e.message 512 refl,
  or_default-ne e.actor "anonymous" refl,
)
