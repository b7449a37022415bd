-- ===== src/Segment/Remove.antt =====
-- `Remove` of a segment: its two files are gone, and no other.
use smolkafka.Prelude.{◌≡◌, refl, ◌∙◌, ap, true, some, none, List}
use smolkafka.Exec.{ok}
use smolkafka.Exec.Returns.{Returns, Returns-bind}
use smolkafka.Bytes.{Bytes}
use smolkafka.Platform.{Platform}
use smolkafka.Store.Frames.{frames}
use smolkafka.Index.Entries.{entries}
use smolkafka.Disk.{
  name_eq_refl, Dir, lookup, without, lookup-without, remove_file, remove_file-some,
}
use smolkafka.Names.{store_name, index_name, names_differ}
use smolkafka.Segment.{Segment, close, remove}
use smolkafka.Segment.Holds.{Holds, IsSame, places}
use smolkafka.Segment.Files.{OnDisk, Spares, close_lem}
use smolkafka.Disk.Listing.{file_names, drop_name, file_names-without, names_closed, names_removed}

-- What `Remove` of `s` leaves.
pub record Removed (s : Segment) (d : Dir) (t : Segment) (d' : Dir) : Type 0 where
  pub same : IsSame s t
  pub exists_lem : d'.exists ≡ true
  pub no_store : lookup (store_name s.base_offset) d'.files ≡ none
  pub no_index : lookup (index_name s.base_offset) d'.files ≡ none
  pub spares : Spares s.base_offset d d'
  pub names_lem : file_names d'.files ≡ names_removed s.base_offset (file_names d.files)

module _ (os : Platform) where
  pub remove_lem :
      (s : Segment) (ps : List Bytes) (d : Dir)
      → Holds s ps
      → d.exists ≡ true
      → Returns (remove os (s, d)) (λ _ (t, d'). Removed s d t d')
  unfolding remove
  remove_lem s ps d h e =
      Returns-bind (close os) _ (s, d)
        (λ _ (t, d1).
          OnDisk s.base_offset ps d1
          × IsSame s t
          × Spares s.base_offset d d1
          × (file_names d1.files ≡ names_closed s.base_offset (file_names d.files)))
        (λ _ (t, d'). Removed s d t d') (close_lem os s ps d h e)
        (λ _ (t, d1) (disk, same, spares, names).
          let i = index_name s.base_offset in
          let d2 : Dir = record d1 { files = without i d1.files } in
          let still : lookup (store_name s.base_offset) d2.files ≡ some (frames ps) =
            simp (lookup-without, (names_differ s.base_offset).1) disk.store_lem in
          let gone_index : remove_file (index_name t.base_offset) d1 ≡ (ok tt, d2) =
            ap (λ b. remove_file (index_name b) d1) same.base_lem
            ∙ remove_file-some i (entries (places 0 0 ps)) d1 disk.exists_lem disk.index_lem in
          let gone_store : remove_file (store_name t.base_offset) d2
              ≡ (ok tt, record d2 { files = without (store_name s.base_offset) d2.files }) =
            ap (λ b. remove_file (store_name b) d2) same.base_lem
            ∙ remove_file-some (store_name s.base_offset) (frames ps) d2 disk.exists_lem still in
          rw (gone_index, gone_store)
            (
              tt,
              refl,
              record {
                same = same;
                exists_lem = disk.exists_lem;
                no_store = simp (lookup-without, name_eq_refl);
                no_index = simp (lookup-without, name_eq_refl, (names_differ s.base_offset).0);
                spares = λ n no_store no_index.
                    simp (lookup-without, no_store, no_index) (spares n no_store no_index);
                names_lem =
                    file_names-without (store_name s.base_offset) d2.files
                    ∙ ap (drop_name (store_name s.base_offset)) (file_names-without i d1.files)
                    ∙ ap (λ ns. drop_name (store_name s.base_offset) (drop_name i ns)) names;
              },
            ))
