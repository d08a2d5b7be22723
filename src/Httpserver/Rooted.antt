-- ===== src/Httpserver/Rooted.antt =====
-- internal/httpserver/path.go: every path that is registered begins with a slash.
use Prim.Native.String.{◌++◌}
use turnstile_appcheck_gatew.Prelude.{
  String, true, ◌==◌, ◌≡◌, refl, sym, if◌then◌else◌, eqb, Bool-cases, ◌⊎◌, inl, inr,
}
use Prim.Native.Char.{code}
use text.Mathlib.TextLemmas.{nil-append, cons-append}
use turnstile_appcheck_gatew.GoStrings.{trim_space, has_prefix, trim_suffix_byte}
use turnstile_appcheck_gatew.Httpserver.{or_root, rooted, clean_subpath, join_subpath}

abbrev pub IsRooted : String → Type 0
IsRooted s = has_prefix s "/" ≡ true

append-IsRooted : (s t : String) → IsRooted s → IsRooted (s ++ t)
unfolding has_prefix
append-IsRooted String.[] t h = cc
append-IsRooted (String.◌∷◌ c s) t h = rw (cons-append c s t) h

rooted-IsRooted : (s : String) → IsRooted (rooted s)
unfolding rooted has_prefix
rooted-IsRooted s = elim (Bool-cases (has_prefix s "/")) [
  | inl e ↦ rw e e
  | inr e ↦ rw e (append-IsRooted "/" s refl)
]

or_root-IsRooted : (s : String) → (s ≡ "") ⊎ IsRooted s → IsRooted (or_root s)
unfolding or_root has_prefix
or_root-IsRooted s (inl e) = rw e refl
or_root-IsRooted s (inr h) = elim (Bool-cases (s == "")) [ inl e ↦ rw e refl | inr e ↦ rw e h ]

trim-IsRooted :
    (s : String) → IsRooted s → (trim_suffix_byte b'/' s ≡ "") ⊎ IsRooted (trim_suffix_byte b'/' s)
unfolding trim_suffix_byte has_prefix
trim-IsRooted String.[] h = inl refl
trim-IsRooted (String.◌∷◌ c String.[]) h = elim (Bool-cases (eqb (code c) b'/')) [
  | inl e ↦ rw e (inl refl)
  | inr e ↦ rw e (inr h)
]
trim-IsRooted (String.◌∷◌ c (String.◌∷◌ d s)) h = inr h

clean_subpath-IsRooted : (s : String) → IsRooted (clean_subpath s)
unfolding clean_subpath
clean_subpath-IsRooted s =
    or_root-IsRooted (trim_suffix_byte b'/' (rooted (or_root (trim_space s))))
      (trim-IsRooted (rooted (or_root (trim_space s))) (rooted-IsRooted (or_root (trim_space s))))

-- The joined path begins with a slash and ends in the suffix, trimmed and with its leading slash;
-- what stands before that is nothing, if the base path is the root, or else the base path.
join_subpath-IsRooted :
    (subpath suffix : String)
    → IsRooted (join_subpath subpath suffix)
      × (join_subpath subpath suffix
          ≡ (if clean_subpath subpath == "/" then "" else clean_subpath subpath)
            ++ rooted (or_root (trim_space suffix)))
unfolding join_subpath
join_subpath-IsRooted subpath suffix =
    let path = rooted (or_root (trim_space suffix)) in
    elim (Bool-cases (clean_subpath subpath == "/")) [
      | inl e ↦ rw e (rooted-IsRooted (or_root (trim_space suffix)), sym (nil-append path))
      | inr e ↦
          rw e (append-IsRooted (clean_subpath subpath) path (clean_subpath-IsRooted subpath), refl)
    ]
