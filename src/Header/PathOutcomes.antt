-- ===== src/Header/PathOutcomes.antt =====
-- src/header.rs: the setters of paths always come to an end.
use async_tar_rs.Base.{
  arith, ◌+◌, ◌≢◌, Bool, true, false, not, ◌&&◌, none, some, List, [], ◌∷◌, Bytes, any, length,
  drop, leb, ◌==◌, if◌then◌else◌,
}
use async_tar_rs.Base.Result.{
  ok, err, Action, other, when, path_absolute, path_parent_dir, path_has_slash, path_empty,
  setting_path, setting_link_name,
}
use async_tar_rs.Poll.{Outcome, ready, out_of_fuel}
use async_tar_rs.Poll.Ends.{Ends, ends_ready, ends_if, ends_bind, ends_then, map_err-ne}
use async_tar_rs.Text.Paths.{
  Component, root_dir, cur_dir, parent_dir, normal, slash, components, as_os_str, ends_with_slash,
}
use async_tar_rs.Header.Layout.{Header, Part, name, prefix, is_ustar, as_ustar, linkname}
use async_tar_rs.Header.Paths.{
  Slot, copy_on, is_normal, mark, emit, emit_bytes, copy_component, copy_components, copy_all,
  end_path, copy_path_into, copy_path_to, one_of, find_prefix, ustar_set_path, set_path,
  set_link_name,
}

copy_on_ends : (bytes : Bytes) → Ends (copy_on bytes)
unfolding copy_on
copy_on_ends bytes = record { ends = λ s e. ground arith }

mark_ends : (c : Component) → Ends (mark c)
unfolding mark
mark_ends c = record { ends = λ s e. ground arith }

done : Ends {S = Slot} (λ s. (s, ready (ok tt)))
done = ends_ready (λ s. s) (λ s. ok tt)

emit_bytes_ends : (c : Component) → Ends (emit_bytes c)
unfolding emit_bytes
emit_bytes_ends c =
    ends_then
      (ends_if (any (λ b. b == slash) (as_os_str c) && is_normal c)
        (ends_ready (λ s. s) (λ s. err (other path_has_slash))) done)
      (ends_then (copy_on_ends (as_os_str c)) (mark_ends c))

emit_ends : (c : Component) → Ends (emit c)
unfolding emit
emit_ends c =
    ends_bind (ends_ready (λ s. s) (λ s. ok s.needs_slash))
      (λ needs. ends_then (ends_if needs (copy_on_ends (slash ∷ [])) done) (emit_bytes_ends c))

copy_component_ends :
    (is_link single : Bool) (c : Component) → Ends (copy_component is_link single c)
unfolding copy_component
copy_component_ends true single c = emit_ends c
copy_component_ends false single root_dir = ends_ready (λ s. s) (λ s. err (other path_absolute))
copy_component_ends false single parent_dir = ends_ready (λ s. s) (λ s. err (other path_parent_dir))
copy_component_ends false single cur_dir = ends_if single (emit_ends cur_dir) done
copy_component_ends false single (normal part) = emit_ends (normal part)

copy_components_ends :
    (is_link single : Bool) (cs : List Component) → Ends (copy_components is_link single cs)
unfolding copy_components
copy_components_ends is_link single [] = done
copy_components_ends is_link single (c ∷ cs) =
    ends_then (copy_component_ends is_link single c) (copy_components_ends is_link single cs)

end_path_ends : (path : Bytes) → Ends (end_path path)
unfolding end_path
end_path_ends path = ends_bind (ends_ready (λ s. s) (λ s. ok s.emitted)) (λ emitted.
    ends_then (ends_if (not emitted) (ends_ready (λ s. s) (λ s. err (other path_empty))) done)
      (ends_if (ends_with_slash path) (copy_on_ends (slash ∷ [])) done))

copy_all_ends : (path : Bytes) (is_link : Bool) → Ends (copy_all path is_link)
unfolding copy_all
copy_all_ends path is_link =
    ends_then (copy_components_ends is_link (one_of (components path)) (components path))
      (end_path_ends path)

copy_path_to_ends :
    (p : Part) (action : Action) (path : Bytes) (is_link : Bool)
    → Ends (copy_path_to p action path is_link)
unfolding copy_path_to copy_path_into
copy_path_to_ends p action path is_link = record {
  ends = λ h. map_err-ne (when action) _ ((copy_all_ends path is_link).ends _);
}

ustar_set_path_ends : (path : Bytes) → Ends (ustar_set_path path)
unfolding ustar_set_path
ustar_set_path_ends path =
    ends_if (leb (length path) 100) (copy_path_to_ends name setting_path path false) (
      ends_bind (ends_ready (λ h. h) (λ h. find_prefix (length path) path)) (λ front.
        ends_then (copy_path_to_ends prefix setting_path front false)
          (copy_path_to_ends name setting_path (drop (length front + 1) path) false)))

pub set_path_ends : (path : Bytes) → Ends (set_path path)
unfolding set_path as_ustar
set_path_ends path = record {
  ends = λ h.
      either h (is_ustar h) ((ustar_set_path_ends path).ends h)
        ((copy_path_to_ends name setting_path path false).ends h);
}
  where
    either :
        (h : Header) (b : Bool)
        → (ustar_set_path path h).1 ≢ out_of_fuel
        → (copy_path_to name setting_path path false h).1 ≢ out_of_fuel
        → (elim (if b then some h else none) as (λ _. Header × Outcome (Unit {0})) [
          | some ustar ↦ ustar_set_path path ustar
          | none ↦ copy_path_to name setting_path path false h
        ]).1
          ≢ out_of_fuel
    either h true l r = l
    either h false l r = r

pub set_link_name_ends : (path : Bytes) → Ends (set_link_name path)
unfolding set_link_name
set_link_name_ends path = copy_path_to_ends linkname setting_link_name path true
