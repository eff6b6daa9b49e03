-- ===== src/Builder/Walk.antt =====
-- src/builder.rs: `append_dir_all` comes to an end on a finite tree.
use async_tar_rs.Base.{
  ℕ, zero, suc, ◌+◌, ◌≤◌, ◌<◌, ◌≡◌, ◌≢◌, Bool, true, false, not, ◌&&◌, ◌||◌, Option, none, some,
  List, [], ◌∷◌, Bytes, arith,
}
use async_tar_rs.Base.Result.{Result, ok, err}
use async_tar_rs.Poll.{ready, panicked, out_of_fuel, M}
use async_tar_rs.Poll.Ends.{
  Ends, ends_ready, ends_if, ends_bind, Yields, OnOutcome, after_yields, yields-ne, Yields-from,
  Yields-bind, Yields-return, Yields-if,
}
use async_tar_rs.Text.Paths.{dot, push, path_eq}
use async_tar_rs.Text.Paths.Strip.{strip_prefix}
use async_tar_rs.Header.Metadata.{HeaderMode, is_file}
use async_tar_rs.Builder.Append.{AsyncWrite}
use async_tar_rs.Builder.Names.{Draft, nothing}
use async_tar_rs.Builder.Files.{
  OpenFile, FileType, DirEntry, SourceTree, Visit, push_entries, is_dir_at, on_own, append_file,
  append_dir, append_link_at, visit_dir, visit_file, visit_link, visit_at, visit, visit_all,
  append_dir_all,
}
use async_tar_rs.Builder.Termination.{append_fs_ends, append_special_ends}

module _ (rank : Bytes → ℕ) where
  -- What a listing brings to the stack.
  abbrev pub weight : List (Result DirEntry) → ℕ
  weight [] = 0
  weight (err e ∷ entries) = weight entries
  weight (ok entry ∷ entries) = suc (rank entry.path) + weight entries

  abbrev total : List Visit → ℕ
  total [] = 0
  total (v ∷ stack) = suc (rank v.src) + total stack

  -- A tree is finite where each directory outweighs what it lists.
  abbrev pub IsFinite : SourceTree → Type 0
  IsFinite tree =
      (src : Bytes) (entries : List (Result DirEntry))
      → tree.read_dir src ≡ ok entries
      → weight entries ≤ rank src

  push_entries-total :
      (entries : List (Result DirEntry)) (stack stack' : List Visit)
      → push_entries entries stack ≡ ok stack'
      → total stack' ≤ weight entries + total stack
  unfolding push_entries
  push_entries-total [] stack stack' e = ground arith
  push_entries-total (err x ∷ entries) stack stack' e = cc
  push_entries-total (ok entry ∷ entries) stack stack' e =
      listed (λ stk. push_entries-total entries stk stack') entry.file_type e
    where
      listed :
          ((stk : List Visit)
            → push_entries entries stk ≡ ok stack'
            → total stack' ≤ weight entries + total stk)
          → (t : Result FileType)
          → (elim t as (λ _. Result (List Visit)) [
            | err x ↦ err x
            | ok t ↦
                push_entries entries (
                  record { src = entry.path; is_dir = t.is_dir; is_symlink = t.is_symlink } ∷ stack)
          ])
            ≡ ok stack'
          → total stack' ≤ suc (rank entry.path) + weight entries + total stack
      listed again (err x) e' = cc
      listed again (ok t) e' = omega (
        arith,
        again (record { src = entry.path; is_dir = t.is_dir; is_symlink = t.is_symlink } ∷ stack)
            e',
      )

module _ {W : Type 0} (io : AsyncWrite W)
    (written : (w : W) (b : Bytes) → (io.write_all w b).1 ≢ out_of_fuel) (tree : SourceTree) where
  on_own_ends : {m : M (Draft W) (Unit {0})} → Ends m → Ends (on_own io tree m)
  on_own_ends hm = record { ends = λ w. unfold on_own in hm.ends _ }

  given : {A : Type 0} (r : Result A) → Ends {S = W} (λ w. (w, ready r))
  given r = ends_ready (λ w. w) (λ w. r)

  append_file_ends :
      (path : Bytes) (file : OpenFile) (mode : HeaderMode)
      → Ends (append_file io tree path file mode)
  unfolding append_file
  append_file_ends path file mode =
      ends_bind (given file.stat)
        (λ stat. on_own_ends (append_fs_ends io written path stat file.source mode none))

  append_dir_ends :
      (path src_path : Bytes) (mode : HeaderMode) → Ends (append_dir io tree path src_path mode)
  unfolding append_dir
  append_dir_ends path src_path mode =
      ends_bind (given (tree.metadata src_path))
        (λ stat. on_own_ends (append_fs_ends io written path stat nothing mode none))

  visit_link_ends : (src dest : Bytes) (mode : HeaderMode) → Ends (visit_link io tree src dest mode)
  unfolding visit_link append_link_at
  visit_link_ends src dest mode = ends_bind (given (tree.symlink_metadata src)) (λ stat.
      ends_bind (given (tree.read_link src)) (λ link_name.
        on_own_ends (append_fs_ends io written dest stat nothing mode (some link_name))))

  visit_file_ends : (src dest : Bytes) (mode : HeaderMode) → Ends (visit_file io tree src dest mode)
  unfolding visit_file
  visit_file_ends src dest mode = ends_bind (given (tree.metadata src)) (λ stat.
      ends_if (not (is_file stat)) (on_own_ends (append_special_ends io written dest stat mode))
        (ends_bind (given (tree.open_file src)) (λ file. append_file_ends dest file mode)))

  module _ (rank : Bytes → ℕ) (finite : IsFinite rank tree) where
    abbrev Below : Visit → List Visit → List Visit → Type 0
    Below v stack stack' = total rank stack' ≤ rank v.src + total rank stack

    visit_dir-Yields :
        (v : Visit) (dest : Bytes) (mode : HeaderMode) (stack : List Visit)
        → Yields (Below v stack) (visit_dir io tree v.src dest mode stack)
    unfolding visit_dir
    visit_dir-Yields v dest mode stack =
        Yields-bind (λ entries. tree.read_dir v.src ≡ ok entries) (Below v stack)
          (Yields-from (tree.read_dir v.src))
          (λ entries listed.
            Yields-bind (λ stack'. push_entries entries stack ≡ ok stack') (Below v stack)
              (Yields-from (push_entries entries stack))
              (λ stack' pushed.
                Yields-return (Below v stack) stack'
                  (omega (
                    arith,
                    finite v.src entries listed,
                    push_entries-total rank entries stack stack' pushed,
                  ))
                  (ends_if (not (path_eq dest []) && not (path_eq dest dot))
                    (append_dir_ends dest v.src mode) (given (ok tt)))))

    visit-Yields :
        (path src_path : Bytes) (mode : HeaderMode) (follow : Bool) (v : Visit) (stack : List Visit)
        → Yields (Below v stack) (visit io tree path src_path mode follow v stack)
    unfolding visit visit_at
    visit-Yields path src_path mode follow v stack = stripped (strip_prefix v.src src_path)
      where
        at : (dest : Bytes) → Yields (Below v stack) (visit_at io tree dest mode follow v stack)
        at dest =
            Yields-if (Below v stack) (v.is_dir || (v.is_symlink && follow && is_dir_at tree v.src))
              (visit_dir-Yields v dest mode stack)
              (Yields-return (Below v stack) stack (omega arith) (
                ends_if (not follow && v.is_symlink) (visit_link_ends v.src dest mode)
                  (visit_file_ends v.src dest mode)))

        stripped :
            (o : Option Bytes)
            → Yields {S = W} (Below v stack) (elim o [
              | none ↦ λ w. (w, panicked)
              | some rest ↦ visit_at io tree (push path rest) mode follow v stack
            ])
        stripped none = record { yields = λ w. tt }
        stripped (some rest) = at (push path rest)

    visit_all_ends :
        (fuel : ℕ) (path src_path : Bytes) (mode : HeaderMode) (follow : Bool) (stack : List Visit)
        (w : W)
        → total rank stack ≤ fuel
        → OnOutcome (λ _. Unit {0}) (visit_all io tree fuel path src_path mode follow stack w).1
    unfolding visit_all
    visit_all_ends zero path src_path mode follow [] w le = tt
    visit_all_ends (suc fuel) path src_path mode follow [] w le = tt
    visit_all_ends zero path src_path mode follow (v ∷ stack) w le = absurd (omega arith)
    visit_all_ends (suc fuel) path src_path mode follow (v ∷ stack) w le =
        after_yields (Below v stack) (λ _. Unit {0})
          (visit_all io tree fuel path src_path mode follow)
          (visit io tree path src_path mode follow v stack w)
          ((visit-Yields path src_path mode follow v stack).yields w)
          (λ stack' w' below.
            visit_all_ends fuel path src_path mode follow stack' w' (omega (arith, below, le)))

    -- `append_dir_all` does not run out of rounds, on every branch: whatever else it ends with,
    -- the rounds are enough where they exceed the rank of the directory that it starts at. The
    -- rank is any measure by which each directory outweighs the entries that it lists, and the
    -- writer does not run out of rounds itself.
    pub append_dir_all-ends :
        (fuel : ℕ) (path src_path : Bytes) (mode : HeaderMode) (follow : Bool) (w : W)
        → rank src_path < fuel
        → (append_dir_all io tree fuel path src_path mode follow w).1 ≢ out_of_fuel
    unfolding append_dir_all
    append_dir_all-ends fuel path src_path mode follow w lt =
        yields-ne (λ _. Unit {0}) _
          (visit_all_ends fuel path src_path mode follow
            (record { src = src_path; is_dir = true; is_symlink = false } ∷ []) w (omega arith))
