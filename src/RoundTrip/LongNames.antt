-- ===== src/RoundTrip/LongNames.antt =====
-- src/archive.rs, `poll_next_entry`: a GNU long name member and the member that it describes.
use async_tar_rs.Base.{
  ℕ, suc, ◌+◌, ◌^◌, ◌≤◌, ◌<◌, ◌≡◌, refl, sym, ap, ◌∙◌, none, some, [], ◌∷◌, ◌++◌, Bytes, length,
  length-append, length-replicate, replicate, arith,
}
use async_tar_rs.Base.Result.{ok}
use async_tar_rs.Poll.{ready}
use async_tar_rs.Header.{Header}
use async_tar_rs.Archive.Inner.{AsyncRead, ArchiveInner, Settings}
use async_tar_rs.Archive.Entries.{EntriesFields, poll_next_entry_raw, round_down}
use async_tar_rs.Archive.Stream.{IsSlice, opened}
use async_tar_rs.Archive.Raw.{Held, bare, holding, between, entry_of}
use async_tar_rs.Archive.Member.{IsReadable, poll_next_entry_raw-member}
use async_tar_rs.Archive.Sparse.{poll_parse_sparse_header}
use async_tar_rs.Archive.Next.{
  longname, kind, take_entry, fetch_entry, next_entry_loop, poll_next_entry, poll_next,
}
use async_tar_rs.Archive.Plain.{IsPlain}
use async_tar_rs.Entry.Fields.{EntryFields, data_of, path_bytes, without_nul}
use async_tar_rs.Entry.Read.{poll_read_all}
use async_tar_rs.Entry.Whole.{cursor, poll_read_all-entry}
use async_tar_rs.Builder.Layout.{padding}
use async_tar_rs.RoundTrip.{next_place}

-- The entry with what is held for it.
abbrev pub described : Held → EntryFields → EntryFields
described held e = record e {
  long_pathname = held.longname;
  long_linkname = held.longlink;
  pax_extensions = held.pax;
}

module _ {R : Type 0} (io : AsyncRead R) (room : ℕ → ℕ) (fuel next : ℕ) (a : ArchiveInner R)
    (settings : Settings) (h : Header) (n pos : ℕ) where
  take_entry-longname :
      (a' : ArchiveInner R) (name : Bytes)
      → kind h ≡ longname
      → poll_read_all io room fuel (cursor a (data_of n ∷ []) none)
        ≡ (cursor a' [] none, ready (ok name))
      → take_entry io room fuel
          (entry_of settings h n pos)
          (record (between next a) { fields = some (entry_of settings h n pos) })
        ≡ (holding (record bare { longname = some name }) next a', ready (ok none))
  unfolding take_entry
  take_entry-longname a' name k e = rw (k, e, take_entry) refl

  take_entry-described :
      (held : Held)
      → IsPlain h
      → take_entry io room fuel
          (entry_of settings h n pos)
          (record (holding held next a) { fields = some (entry_of settings h n pos) })
        ≡ (between next a, ready (ok (some (described held (entry_of settings h n pos)))))
  unfolding take_entry poll_parse_sparse_header
  take_entry-described held p =
      rw (p.is_plain, p.not_sparse, take_entry, poll_parse_sparse_header) refl

without_nul-append : (path : Bytes) → without_nul (path ++ 0 ∷ []) ≡ path
unfolding without_nul
without_nul-append [] = refl
without_nul-append (b ∷ []) = refl
without_nul-append (b ∷ c ∷ path) = ap (◌∷◌ b) (without_nul-append (c ∷ path))

abbrev named : Bytes → Held
named name = record bare { longname = some name }

path_bytes-named :
    (path : Bytes) (e : EntryFields) → path_bytes (described (named (path ++ 0 ∷ [])) e) ≡ path
unfolding path_bytes
path_bytes-named path e = without_nul-append path

module _ {R : Type 0} (io : AsyncRead R) (room : ℕ → ℕ) (fuel : ℕ) where
  -- Two rounds of the loop: a member that names the next one, and that one.
  poll_next-two :
      (next next1 next2 : ℕ) (a a1 a2 a3 : ArchiveInner R) (f1 f2 f3 : EntryFields) (name : Bytes)
      → poll_next_entry_raw io (suc (suc fuel)) none (between next a)
        ≡ (between next1 a1, ready (ok (some f1)))
      → take_entry io room (suc (suc fuel)) f1 (record (between next1 a1) { fields = some f1 })
        ≡ (holding (named name) next1 a2, ready (ok none))
      → poll_next_entry_raw io (suc (suc fuel)) none (holding (named name) next1 a2)
        ≡ (holding (named name) next2 a3, ready (ok (some f2)))
      → take_entry io room
          (suc (suc fuel))
          f2
          (record (holding (named name) next2 a3) { fields = some f2 })
        ≡ (between next2 a3, ready (ok (some f3)))
      → poll_next io room (suc (suc fuel)) (between next a)
        ≡ (between next2 a3, ready (ok (some (ok f3))))
  unfolding poll_next poll_next_entry next_entry_loop fetch_entry
  poll_next-two next next1 next2 a a1 a2 a3 f1 f2 f3 name e1 t1 e2 t2 = rw (e1, t1, e2, t2) refl

module _ {R : Type 0} (io : AsyncRead R) (remaining : R → Bytes) (slice : IsSlice io remaining)
    (room : ℕ → ℕ) (grows : (len : ℕ) → 0 < room len) (settings : Settings) (fuel : ℕ) where
  -- At a position where up to 32768 bytes of the member before are left, followed by a readable
  -- GNU long name member whose data is a path and a NUL, and by a readable member of a type that
  -- describes no other one and is not sparse, `poll_next` yields one entry: the header and the
  -- size are those of the second member, `path_bytes` gives the path, and the reader stands at
  -- the data of that member. The rounds exceed the length of the path by more than one, every
  -- growth of the vector makes room for a byte at least, the reader fills every buffer as far as
  -- the bytes go, and the positions stay below `2 ^ 64`.
  pub poll_next-longname :
      (front path back : Bytes) (h1 h2 : Header) (n pos : ℕ) (r : R)
      → remaining r
        ≡ front
          ++ (h1.bytes
              ++ ((path ++ 0 ∷ [])
                  ++ (replicate (padding (length (path ++ 0 ∷ []))) 0 ++ (h2.bytes ++ back))))
      → length front ≤ 32768
      → IsReadable h1 (length (path ++ 0 ∷ []))
      → kind h1 ≡ longname
      → IsReadable h2 n
      → IsPlain h2
      → length path < suc fuel
      → pos + length front + length path + n + 4096 < 2 ^ 64
      → (s : EntriesFields R) × (e : EntryFields) × (poll_next io room
            (suc (suc fuel))
            (between (pos + length front) (opened settings pos r))
          ≡ (s, ready (ok (some (ok e)))))
        × (e.header ≡ h2)
        × (e.size ≡ n)
        × (path_bytes e ≡ path)
        × (remaining s.archive.obj ≡ back)
  poll_next-longname front path back h1 h2 n pos r laid small m1 k m2 p fits u =
      let at = pos + length front in
      let name : Bytes = path ++ 0 ∷ [] in
      let l = length name in
      let long : l ≡ length path + 1 = length-append path (0 ∷ []) in
      let pad : Bytes = replicate (padding l) 0 in
      let wide : length pad ≡ padding l = length-replicate (padding l) 0 in
      let (r1, e1, found) =
        poll_next_entry_raw-member io remaining slice settings bare front
          (name ++ (pad ++ (h2.bytes ++ back))) pos r small (suc fuel) l h1 laid m1
          (omega (arith, long, u)) in
      let (r2, e2, whole) =
        poll_read_all-entry io remaining slice settings room grows (suc (suc fuel)) name
          (pad ++ (h2.bytes ++ back)) (at + 512) r1 (omega (arith, long, fits)) e1
          (omega (arith, long, u)) in
      let there : at + 512 + round_down (l + 511) ≡ at + 512 + l + length pad =
        next_place at l ∙ ap (λ (k : ℕ). at + 512 + l + k) (sym wide) in
      let (r3, e3, second) =
        poll_next_entry_raw-member io remaining slice settings (named name) pad back (at + 512 + l)
          r2 (omega (arith, wide)) (suc fuel) n h2 e2 m2 (omega (arith, wide, u)) in
      (
        _,
        described (named name) (entry_of settings h2 n (at + 512 + l + length pad)),
        poll_next-two io room fuel at (at + 512 + round_down (l + 511)) _ (opened settings pos r)
            (opened settings (at + 512) r1) (opened settings (at + 512 + l) r2) _
            (entry_of settings h1 l at) (entry_of settings h2 n (at + 512 + l + length pad)) _ name
            found
            (take_entry-longname io room (suc (suc fuel)) (at + 512 + round_down (l + 511)) _
              settings h1 l at _ name k whole)
            (ap
                (λ (q : ℕ).
                  poll_next_entry_raw io (suc (suc fuel)) none
                    (holding (named name) q (opened settings (at + 512 + l) r2)))
                there
              ∙ second)
            (take_entry-described io room (suc (suc fuel)) _ _ settings h2 n
              (at + 512 + l + length pad) (named name) p),
        refl,
        refl,
        path_bytes-named path (entry_of settings h2 n (at + 512 + l + length pad)),
        e3,
      )
