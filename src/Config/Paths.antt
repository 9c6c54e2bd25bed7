-- ===== src/Config/Paths.antt =====
-- The parts of `pathlib.PurePosixPath` that src/config.py uses. A path is its normal text: one
-- leading slash, or two if there are exactly two, and no empty or `.` parts.
use sensorctl.Prelude.{
  String, ◌≡◌, refl, not, ◌&&◌, List, [], ◌∷◌, if◌then◌else◌, is_blank, split, join, starts_with,
  str_eq, ◌<>◌,
}

-- A `Path` by its text.
abbrev pub FilePath : Type 0
FilePath = String

unfoldable pub path_parts : List String → List String
path_parts [] = []
path_parts (p ∷ ps) =
    let rest = path_parts ps in if is_blank p then rest else if str_eq p "." then rest else p ∷ rest

unfoldable pub path_root : String → String
path_root s =
    if starts_with s "//" && not (starts_with s "///")
    then "//"
    else if starts_with s "/"
    then "/"
    else ""

or_dot : String → String
or_dot s = if is_blank s then "." else s

-- `Path(s)`
unfoldable pub path_of : String → FilePath
unfolding path_parts path_root or_dot join
path_of s = or_dot (path_root s <> join "/" (path_parts (split b'/' s)))

last_part : List String → String
last_part [] = ""
last_part (p ∷ []) = p
last_part (p ∷ q ∷ ps) = last_part (q ∷ ps)

-- `path.name`
unfoldable pub path_name : FilePath → String
unfolding path_parts last_part split
path_name path = last_part (path_parts (split b'/' path))

but_last : List String → List String
but_last [] = []
but_last (p ∷ []) = []
but_last (p ∷ q ∷ ps) = p ∷ but_last (q ∷ ps)

-- `path.parent`
unfoldable pub path_parent : FilePath → FilePath
unfolding path_parts path_root or_dot join but_last split
path_parent path = or_dot (path_root path <> join "/" (but_last (path_parts (split b'/' path))))

parents :
    path_parent "/var/lib/db" ∷ path_parent "/db" ∷ path_parent "/" ∷ path_parent "db" ∷ []
    ≡ "/var/lib" ∷ "/" ∷ "/" ∷ "." ∷ []
unfolding path_parent
parents = refl

normal_text : path_of "/dev//./i2c-1/" ≡ "/dev/i2c-1"
unfolding path_of split
normal_text = refl

last_name : path_name "/dev/i2c-1" ≡ "i2c-1"
unfolding path_name
last_name = refl
