-- ===== src/Paths.antt =====
-- `filepath.Base` and `filepath.Ext` of the language's standard library, for paths with slashes, as
-- internal/core/program.go and pkg/factertest/testcase.go use them.
pub mod Laws
use Prim.Native.Char.{Char, code}
use Prim.Native.String.{[], ◌∷◌}
use paperminer.Base.{String, Bool, false, ◌||◌, ◌&&◌, ◌==◌, str_eq, if◌then◌else◌}

abbrev pub is_slash : Char → Bool
is_slash c = code c == b'/'

abbrev pub is_dot : Char → Bool
is_dot c = code c == b'.'

unfoldable pub has : (Char → Bool) → String → Bool
has p [] = false
has p (c ∷ s) = p c || has p s

unfoldable pub without_slashes : String → String
without_slashes [] = []
without_slashes (c ∷ s) =
    let rest = without_slashes s in if is_slash c && str_eq rest "" then [] else c ∷ rest

-- What follows the last slash.
unfoldable pub last_element : String → String
unfolding has
last_element [] = []
last_element (c ∷ s) =
    let rest = last_element s in if has is_slash s then rest else if is_slash c then s else c ∷ s

or_separator : String → String
or_separator path = if str_eq path "" then "/" else path

unfoldable pub base : String → String
unfolding without_slashes last_element or_separator
base path = if str_eq path "" then "." else or_separator (last_element (without_slashes path))

-- From the last dot of the last element on.
unfoldable pub ext : String → String
unfolding has
ext [] = []
ext (c ∷ s) =
    let rest = ext s in
    if has is_slash s
    then rest
    else if str_eq rest ""
    then (if is_dot c then c ∷ s else [])
    else rest
