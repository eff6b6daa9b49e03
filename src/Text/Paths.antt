-- ===== src/Text/Paths.antt =====
-- `std::path` on unix: a path is its bytes, and its components are read off them.
pub mod Join
pub mod Parents
pub mod Strip
use async_tar_rs.Base.{
  ℕ, zero, suc, ◌+◌, ◌-◌, Bool, true, false, not, ◌&&◌, ◌||◌, Option, none, some, List, [], ◌∷◌,
  ◌++◌, ◌≡◌, refl, reverse, map, Bytes, length, take, drop, get_or, ◌==◌, if◌then◌else◌,
}
use async_tar_rs.Base.Slots.{bytes_eq}

-- On unix there is no `Component::Prefix`.
pub data Component : Type 0 where
  root_dir cur_dir parent_dir : Component
  normal : Bytes → Component

abbrev pub slash : ℕ
slash = b'/'

abbrev pub dot : Bytes
dot = b'.' ∷ []

abbrev pub dot_dot : Bytes
dot_dot = b'.' ∷ b'.' ∷ []

-- The parts between the slashes: a list that is never empty.
unfoldable pub split : Bytes → List Bytes
split [] = [] ∷ []
split (b ∷ bytes) =
    let rest = split bytes in
    if b == slash
    then [] ∷ rest
    else elim rest [ [] ↦ (b ∷ []) ∷ [] | part ∷ parts ↦ (b ∷ part) ∷ parts ]

unfoldable pub is_absolute : Bytes → Bool
is_absolute [] = false
is_absolute (b ∷ bytes) = b == slash

-- Whether a part is a component: an empty part is none, and `.` is one at the very start only.
unfoldable pub counts : Bool → Bytes → Bool
counts start [] = false
counts start (b ∷ part) = not (bytes_eq (b ∷ part) dot) || start

unfoldable pub component : Bytes → Component
component part =
    if bytes_eq part dot then cur_dir else if bytes_eq part dot_dot then parent_dir else normal part

unfoldable pub body : Bool → List Bytes → List Component
unfolding counts component
body start [] = []
body start (part ∷ parts) =
    let rest = body false parts in if counts start part then component part ∷ rest else rest

-- `Path::components`
unfoldable pub components : Bytes → List Component
unfolding is_absolute body
components path =
    (if is_absolute path then root_dir ∷ [] else []) ++ body (not (is_absolute path)) (split path)

-- `Component::as_os_str`
unfoldable pub as_os_str : Component → Bytes
as_os_str root_dir = slash ∷ []
as_os_str cur_dir = dot
as_os_str parent_dir = dot_dot
as_os_str (normal part) = part

-- Where the components of the body end, from `off` on.
unfoldable pub ends : Bool → ℕ → List Bytes → List ℕ
unfolding counts
ends start off [] = []
ends start off (part ∷ parts) =
    let rest = ends false (off + length part + 1) parts in
    if counts start part then (off + length part) ∷ rest else rest

-- The path up to the last but one of the ends, which are listed backwards.
unfoldable pub up_to : Bytes → List ℕ → Option Bytes
unfolding is_absolute
up_to path [] = none
up_to path (e ∷ []) = some (if is_absolute path then slash ∷ [] else [])
up_to path (e ∷ e' ∷ rest) = some (take e' path)

-- `Path::parent`
unfoldable pub parent : Bytes → Option Bytes
unfolding ends up_to
parent path = up_to path (reverse (ends (not (is_absolute path)) 0 (split path)))

unfoldable pub ends_with_slash : Bytes → Bool
ends_with_slash [] = false
ends_with_slash (b ∷ []) = b == slash
ends_with_slash (b ∷ c ∷ bytes) = ends_with_slash (c ∷ bytes)

-- `PathBuf::push`, which is `Path::join` too: an absolute path takes the place of the first one.
unfoldable pub push : Bytes → Bytes → Bytes
unfolding is_absolute ends_with_slash
push [] part = part
push (b ∷ path) part =
    if is_absolute part
    then part
    else if ends_with_slash (b ∷ path)
    then (b ∷ path) ++ part
    else (b ∷ path) ++ (slash ∷ part)

unfoldable pub component_eq : Component → Component → Bool
component_eq root_dir root_dir = true
component_eq cur_dir cur_dir = true
component_eq parent_dir parent_dir = true
component_eq (normal a) (normal b) = bytes_eq a b
component_eq _ _ = false

unfoldable pub prefix_of : List Component → List Component → Bool
unfolding component_eq
prefix_of [] cs = true
prefix_of (b ∷ base) [] = false
prefix_of (b ∷ base) (c ∷ cs) = component_eq b c && prefix_of base cs

-- `Path::starts_with`
unfoldable pub starts_with : Bytes → Bytes → Bool
unfolding components prefix_of
starts_with path base = prefix_of (components base) (components path)

-- `==` on paths
unfoldable pub path_eq : Bytes → Bytes → Bool
unfolding components prefix_of
path_eq a b = prefix_of (components a) (components b) && prefix_of (components b) (components a)

components_runs :
    components (b'/' ∷ b'.' ∷ b'/' ∷ b'a' ∷ b'/' ∷ b'/' ∷ b'.' ∷ b'.' ∷ b'/' ∷ [])
    ≡ root_dir ∷ normal (b'a' ∷ []) ∷ parent_dir ∷ []
unfolding components split
components_runs = refl

parent_runs :
    (parent (b'a' ∷ b'/' ∷ b'.' ∷ b'/' ∷ b'b' ∷ b'/' ∷ []) ≡ some (b'a' ∷ []))
    × (parent (b'/' ∷ b'a' ∷ []) ≡ some (b'/' ∷ []))
    × (parent (b'.' ∷ b'/' ∷ b'a' ∷ []) ≡ some (b'.' ∷ []))
    × (parent (b'.' ∷ []) ≡ some [])
    × (parent (b'/' ∷ b'/' ∷ []) ≡ none)
unfolding parent split take
parent_runs = (refl, refl, refl, refl, refl)
