-- ===== src/Httpserver.antt =====
-- internal/httpserver/path.go: the paths under which the routes are registered.
pub mod Rooted
pub mod Router
pub mod Served
use Prim.Native.String.{◌++◌}
use turnstile_appcheck_gatew.Prelude.{String, ◌==◌, if◌then◌else◌}
use turnstile_appcheck_gatew.GoStrings.{trim_space, has_prefix, trim_suffix_byte}

-- `if s == "" { s = "/" }`
unfoldable pub or_root : String → String
or_root s = if s == "" then "/" else s

-- `if !strings.HasPrefix(s, "/") { s = "/" + s }`
unfoldable pub rooted : String → String
rooted s = if has_prefix s "/" then s else "/" ++ s

unfoldable pub clean_subpath : String → String
unfolding or_root rooted
clean_subpath subpath = or_root (trim_suffix_byte b'/' (rooted (or_root (trim_space subpath))))

unfoldable pub join_subpath : String → String → String
unfolding clean_subpath or_root rooted
join_subpath subpath suffix =
    let clean = clean_subpath subpath in
    let clean_suffix = rooted (or_root (trim_space suffix)) in
    if clean == "/" then clean_suffix else clean ++ clean_suffix
