-- ===== src/Config/Paths.antt =====
-- internal/config/config.go: the normalisation of base paths, and path.Clean.
pub mod Clean
use Prim.Native.String.{◌++◌}
use turnstile_appcheck_gatew.Prelude.{String, not, List, [], ◌∷◌, ◌==◌, ◌||◌, ◌&&◌, if◌then◌else◌}
use turnstile_appcheck_gatew.GoStrings.{trim_space, has_prefix, split_byte, trim_suffix_byte}

abbrev pub default_subpath : String
default_subpath = "/appcheck"

-- the elements that stand before `..`, the last first
up : List String → List String
up [] = []
up (seg ∷ stack) = stack

-- one element of a path, after the elements of `stack`, the last first
push_segment : List String → String → List String
unfolding up
push_segment stack seg =
    if (seg == "") || (seg == ".") then stack else if seg == ".." then up stack else seg ∷ stack

clean_segments : List String → List String → List String
unfolding push_segment
clean_segments stack [] = stack
clean_segments stack (seg ∷ segs) = clean_segments (push_segment stack seg) segs

-- the path of the elements, the last first, and then `rest`
path_before : List String → String → String
path_before [] rest = rest
path_before (seg ∷ stack) rest = path_before stack ("/" ++ (seg ++ rest))

unfoldable pub path_of : List String → String
unfolding path_before
path_of [] = "/"
path_of (seg ∷ stack) = path_before (seg ∷ stack) ""

-- path.Clean of a path that begins with a slash
unfoldable pub clean_rooted : String → String
unfolding clean_segments path_of
clean_rooted p = path_of (clean_segments [] (split_byte b'/' p))

-- one element of a path that does not begin with a slash, where `..` may stand at the front
push_relative : List String → String → List String
push_relative [] seg = if (seg == "") || (seg == ".") then [] else seg ∷ []
push_relative (top ∷ stack) seg =
    if (seg == "") || (seg == ".")
    then top ∷ stack
    else if (seg == "..") && not (top == "..")
    then stack
    else seg ∷ top ∷ stack

relative_segments : List String → List String → List String
unfolding push_relative
relative_segments stack [] = stack
relative_segments stack (seg ∷ segs) = relative_segments (push_relative stack seg) segs

-- the elements, the last first, with a slash between them, and then `rest`
joined_before : List String → String → String
joined_before [] rest = rest
joined_before (seg ∷ []) rest = seg ++ rest
joined_before (seg ∷ next ∷ stack) rest = joined_before (next ∷ stack) ("/" ++ (seg ++ rest))

relative_path_of : List String → String
unfolding joined_before
relative_path_of [] = "."
relative_path_of (seg ∷ stack) = joined_before (seg ∷ stack) ""

-- path.Clean
unfoldable pub clean : String → String
unfolding clean_rooted relative_segments relative_path_of
clean p =
    if has_prefix p "/"
    then clean_rooted p
    else relative_path_of (relative_segments [] (split_byte b'/' p))

-- `if !strings.HasPrefix(s, "/") { s = "/" + s }`
rooted : String → String
rooted s = if has_prefix s "/" then s else "/" ++ s

unfoldable pub normalize_subpath : String → String
unfolding rooted clean
normalize_subpath input =
    let trimmed = trim_space input in
    let cleaned = clean (rooted (if trimmed == "" then default_subpath else trimmed)) in
    if cleaned == "."
    then "/"
    else if cleaned == "/"
    then cleaned
    else trim_suffix_byte b'/' cleaned

unfoldable pub normalize_health_path : String → String
unfolding rooted clean
normalize_health_path input = let p = trim_space input in if p == "" then "/" else clean (rooted p)
