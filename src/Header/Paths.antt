-- ===== src/Header/Paths.antt =====
-- src/header.rs: `copy_path_into`, and the setters of the path and of the link name.
use async_tar_rs.Base.{
  ℕ, zero, suc, ◌+◌, Bool, true, false, not, ◌&&◌, none, some, List, [], ◌∷◌, ◌++◌, Bytes, length,
  take, drop, any, leb, ◌==◌, if◌then◌else◌,
}
use async_tar_rs.Base.Slots.{bytes_eq}
use async_tar_rs.Base.Result.{
  Result, ok, err, Action, other, when, setting_path, setting_link_name, path_absolute,
  path_parent_dir, path_has_slash, path_empty, path_unsplittable,
}
use async_tar_rs.Poll.{Outcome, ready, map_err, M, ◌>>=◌, ◌>>◌, return, fail, from, read, modify}
use async_tar_rs.Text.Paths.{
  Component, root_dir, cur_dir, parent_dir, normal, slash, components, as_os_str, parent,
  ends_with_slash,
}
use async_tar_rs.Codec.{copy_into}
use async_tar_rs.Header.Layout.{Header, Part, get, put, as_ustar, name, linkname, prefix}

-- The field while a path is copied into it: what was passed over, what is left of the slot, and
-- the two flags of the loop.
pub record Slot : Type 0 where
  pub front : Bytes
  pub rest : Bytes
  pub needs_slash : Bool
  pub emitted : Bool

-- The inner function `copy`: the slot moves on behind the bytes.
unfoldable pub copy_on : Bytes → M Slot (Unit {0})
copy_on bytes s = elim (copy_into s.rest bytes) [
  | err e ↦ (s, ready (err e))
  | ok slot ↦ (
    record s { front = s.front ++ take (length bytes) slot; rest = drop (length bytes) slot },
    ready (ok tt),
  )
]

abbrev pub is_normal : Component → Bool
is_normal (normal part) = true
is_normal root_dir = false
is_normal cur_dir = false
is_normal parent_dir = false

-- The end of the round: the two flags.
unfoldable pub mark : Component → M Slot (Unit {0})
unfolding as_os_str
mark c = do
  if not (bytes_eq (as_os_str c) (slash ∷ []))
      then modify (λ s. record s { needs_slash = true })
      else return tt
  modify (λ s. record s { emitted = true })

-- The rest of the round, from the test of the component's bytes on.
unfoldable pub emit_bytes : Component → M Slot (Unit {0})
unfolding copy_on as_os_str mark
emit_bytes c = do
  if any (λ b. b == slash) (as_os_str c) && is_normal c
      then fail (other path_has_slash)
      else return tt
  copy_on (as_os_str c)
  mark c

-- What follows the `match` in the body of the loop.
unfoldable pub emit : Component → M Slot (Unit {0})
unfolding emit_bytes
emit c = do
  needs_slash ← read (λ s. s.needs_slash)
  if needs_slash then copy_on (slash ∷ []) else return tt
  emit_bytes c

-- One round of the loop; `single` says that the path has one component.
unfoldable pub copy_component : Bool → Bool → Component → M Slot (Unit {0})
unfolding emit
copy_component true single c = emit c
copy_component false single root_dir = fail (other path_absolute)
copy_component false single parent_dir = fail (other path_parent_dir)
copy_component false single cur_dir = if single then emit cur_dir else return tt
copy_component false single (normal part) = emit (normal part)

unfoldable pub copy_components : Bool → Bool → List Component → M Slot (Unit {0})
unfolding copy_component
copy_components is_link_name single [] = return tt
copy_components is_link_name single (c ∷ cs) = do
  copy_component is_link_name single c
  copy_components is_link_name single cs

abbrev pub one_of : List Component → Bool
one_of [] = false
one_of (c ∷ []) = true
one_of (c ∷ d ∷ cs) = false

-- What follows the loop.
unfoldable pub end_path : Bytes → M Slot (Unit {0})
unfolding ends_with_slash
end_path path = do
  emitted ← read (λ s. s.emitted)
  if not emitted then fail (other path_empty) else return tt
  if ends_with_slash path then copy_on (slash ∷ []) else return tt

unfoldable pub copy_all : Bytes → Bool → M Slot (Unit {0})
unfolding copy_components components end_path
copy_all path is_link_name = do
  copy_components is_link_name (one_of (components path)) (components path)
  end_path path

-- `copy_path_into`: the field as it is left, also by an error, and the outcome.
unfoldable pub copy_path_into : Bytes → Bytes → Bool → Bytes × Outcome (Unit {0})
unfolding copy_all
copy_path_into slot path is_link_name =
    let start : Slot = record { front = []; rest = slot; needs_slash = false; emitted = false } in
    let end = copy_all path is_link_name start in ((end.0).front ++ (end.0).rest, end.1)

-- A field that is filled with a path.
unfoldable pub copy_path_to : Part → Action → Bytes → Bool → M Header (Unit {0})
unfolding copy_path_into
copy_path_to p action path is_link_name h =
    let end = copy_path_into (get p h) path is_link_name in
    (put p end.0 h, map_err (when action) end.1)

-- `loop { prefix = prefix.parent()?; … }`: the first ancestor of at most 155 bytes. A parent is
-- shorter than its path, so the length of the path is fuel enough; only the empty path, which has
-- no parent, meets the first clause.
unfoldable pub find_prefix : ℕ → Bytes → Result Bytes
find_prefix zero path = err (other path_unsplittable)
find_prefix (suc fuel) path = elim (parent path) [
  | none ↦ err (other path_unsplittable)
  | some up ↦ let further = find_prefix fuel up in if leb (length up) 155 then ok up else further
]

-- `UstarHeader::_set_path`
unfoldable pub ustar_set_path : Bytes → M Header (Unit {0})
unfolding copy_path_to find_prefix
ustar_set_path path =
    if leb (length path) 100 then copy_path_to name setting_path path false else do
      front ← from (find_prefix (length path) path)
      copy_path_to prefix setting_path front false
      copy_path_to name setting_path (drop (length front + 1) path) false

-- `Header::_set_path`
unfoldable pub set_path : Bytes → M Header (Unit {0})
unfolding ustar_set_path
set_path path h = elim (as_ustar h) [
  | some ustar ↦ ustar_set_path path ustar
  | none ↦ copy_path_to name setting_path path false h
]

-- `Header::_set_link_name`
unfoldable pub set_link_name : Bytes → M Header (Unit {0})
unfolding copy_path_to
set_link_name path = copy_path_to linkname setting_link_name path true

-- `Header::_set_link_name_literal`
unfoldable pub set_link_name_literal : Bytes → M Header (Unit {0})
set_link_name_literal bytes h = elim (copy_into (get linkname h) bytes) [
  | err e ↦ (h, ready (err e))
  | ok slot ↦ (put linkname slot h, ready (ok tt))
]
