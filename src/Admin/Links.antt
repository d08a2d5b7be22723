-- ===== src/Admin/Links.antt =====
-- internal/admin/api.go: the links to the commit and to the release of a build.
use Prim.Native.String.{◌++◌}
use turnstile_appcheck_gatew.Prelude.{
  String, Bool, false, ◌&&◌, ◌||◌, List, [], ◌∷◌, none, some, ◌==◌, if◌then◌else◌, pos, leb_ℤ,
}
use turnstile_appcheck_gatew.GoStrings.{trim_space, trim_prefix_byte, split_byte, has_prefix, atoi}

unfoldable pub commit_url : String → String
commit_url commit =
    let c = trim_space commit in
    if (c == "") || (c == "unknown")
    then ""
    else "https://github.com/michibiki-io/turnstile-appcheck-gateway/commit/" ++ c

-- strconv.Atoi answers a number that is not below 0
is_number : String → Bool
is_number part = elim (atoi part) [ none ↦ false | some n ↦ leb_ℤ (pos 0) n ]

-- three parts, all numbers
is_version : List String → Bool
unfolding is_number
is_version (a ∷ (b ∷ (c ∷ []))) = is_number a && (is_number b && is_number c)
is_version _ = false

unfoldable pub release_tag_url : String → String
unfolding is_version
release_tag_url build_version =
    let given = trim_space build_version in
    let tag = if has_prefix given "v" then given else "v" ++ given in
    if (given == "") || (given == "dev")
    then ""
    else if is_version (split_byte b'.' (trim_prefix_byte b'v' tag))
    then "https://github.com/michibiki-io/turnstile-appcheck-gateway/releases/tag/" ++ tag
    else ""
