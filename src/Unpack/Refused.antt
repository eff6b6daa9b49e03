-- ===== src/Unpack/Refused.antt =====
-- src/entry.rs, `unpack_in` and `unpack`: what is refused, and what a hard link may lead to.
use async_tar_rs.Base.{
  ℕ, ◌≡◌, refl, sym, subst, ◌⊎◌, inl, inr, Bool, true, false, none, some, List, [], ◌∷◌, Bytes, any,
  arith,
}
use async_tar_rs.Base.Result.{ok, err, Error, Result-cases, hard_linking}
use async_tar_rs.Poll.{Outcome, ready, return, wrap, after}
use async_tar_rs.Text.Paths.{Component, root_dir, cur_dir, parent_dir, normal, components, push}
use async_tar_rs.EntryType.{EntryType, is_dir, is_hard_link}
use async_tar_rs.Header.{entry_type}
use async_tar_rs.Archive.Inner.{AsyncRead}
use async_tar_rs.Entry.Fields.{EntryFields, path_bytes}
use async_tar_rs.Unpack.System.{hard_link, FileSystem, World, run}
use async_tar_rs.Unpack.File.{
  Unpacked, nonexhaustive, link_name, link_source, unpack_hard_link, unpack_link, unpack,
}
use async_tar_rs.Unpack.Place.{place, unpack_in}
use async_tar_rs.Unpack.Within.{IsInside, validate_cases}

abbrev pub is_parent_dir : Component → Bool
is_parent_dir root_dir = false
is_parent_dir cur_dir = false
is_parent_dir parent_dir = true
is_parent_dir (normal part) = false

place-parent_dir :
    (p : Bytes) (cs : List Component) → any is_parent_dir cs ≡ true → place p cs ≡ none
unfolding place
place-parent_dir p [] h = cc
place-parent_dir p (root_dir ∷ cs) h = place-parent_dir p cs h
place-parent_dir p (cur_dir ∷ cs) h = place-parent_dir p cs h
place-parent_dir p (parent_dir ∷ cs) h = refl
place-parent_dir p (normal part ∷ cs) h = place-parent_dir (push p part) cs h

link-not-dir : (t : EntryType) → is_hard_link t ≡ true → is_dir t ≡ false
unfolding is_hard_link is_dir
link-not-dir t h = ground arith

after-return : {S A B : Type 0} (b : B) (x : S × Outcome A) → (after (λ _. return b) x).0 ≡ x.0
after-return b (s, ready (ok a)) = refl
after-return b (s, ready (err e)) = refl
after-return b (s, Outcome.pending) = refl
after-return b (s, Outcome.panicked) = refl
after-return b (s, Outcome.out_of_fuel) = refl

module _ {R F : Type 0} (io : AsyncRead R) (sys : FileSystem F) (chunk : ℕ) (room : ℕ → ℕ)
    (fuel : ℕ) (e : EntryFields) where
  -- An entry whose path has a component `..` is passed over by `unpack_in`: the answer is false,
  -- and neither the archive nor the file system is touched.
  pub unpack_in-parent_dir :
      (dst : Bytes) (w : World R F)
      → any is_parent_dir (components (path_bytes e)) ≡ true
      → unpack_in io sys chunk room fuel e dst w ≡ (w, ready (ok false))
  unfolding unpack_in
  unpack_in-parent_dir dst w h =
      rw (place-parent_dir dst (components (path_bytes e)) h, unpack_in) refl

  -- The source of a hard link that is made is inside; nothing is done where the link is refused.
  abbrev pub IsLinkedInside : Bytes → Bytes → World R F → World R F × Outcome Unpacked → Type 0
  IsLinkedInside p dst w x =
      ((e' : Error) × (x ≡ (w, ready (err e'))))
      ⊎ ((src : Bytes) × (link_name e ≡ ok src)
          × IsInside sys p (push p src) w.fs
          × (x.0 ≡ record w { fs = (sys.call (hard_link (push p src) dst) w.fs).0 }))

  unpack_link-cases :
      (p dst : Bytes) (w : World R F)
      → is_hard_link (entry_type e.header) ≡ true
      → IsLinkedInside p dst w (unpack_link sys e (some p) dst w)
  unpack_link-cases p dst w h = elim (Result-cases (link_name e)) [
    | inr (e', bad) ↦ inl (e', unfold unpack_link in rw bad refl)
    | inl (src, named) ↦ elim (validate_cases sys p (push p src) w) [
      | inr (e', refused) ↦
          inl (e', unfold unpack_link unpack_hard_link link_source in rw (named, h, refused) refl)
      | inl (base, inside, passed) ↦ inr (
        src,
        named,
        inside,
        unfold unpack_link unpack_hard_link link_source run in
            rw (named, h, passed)
              (after-return nonexhaustive
                (wrap hard_linking (run sys (hard_link (push p src) dst)) w)),
      )
    ]
  ]

  unpack-unpack_link :
      (p dst : Bytes) (w : World R F)
      → is_hard_link (entry_type e.header) ≡ true
      → unpack io sys chunk room fuel e (some p) dst w ≡ unpack_link sys e (some p) dst w
  unfolding unpack
  unpack-unpack_link p dst w h = rw (link-not-dir (entry_type e.header) h, h) refl

  -- For a hard link with a base to stay in, `unpack` either fails and leaves everything as it
  -- was, or the entry has a link name that, joined to the base, is inside the base with all links
  -- followed, and the one call made is to link it.
  pub unpack-hard_link :
      (p dst : Bytes) (w : World R F)
      → is_hard_link (entry_type e.header) ≡ true
      → IsLinkedInside p dst w (unpack io sys chunk room fuel e (some p) dst w)
  unpack-hard_link p dst w h =
      subst (IsLinkedInside p dst w) (sym (unpack-unpack_link p dst w h))
        (unpack_link-cases p dst w h)
