-- ===== src/Segment/Reopen.antt =====
-- A segment that is closed and opened again, and a new one.
use mathlib.Core.Path.{subst}
use smolkafka.Prelude.{
  ◌++◌, ℕ, ◌+◌, ◌^◌, ◌<◌, ◌≡◌, refl, ◌∙◌, ap, sym, true, none, List, [], ◌∷◌, arith, length,
}
use smolkafka.Exec.{ok}
use smolkafka.Exec.Returns.{Returns}
use smolkafka.Bytes.{Bytes}
use smolkafka.Platform.{Platform}
use smolkafka.Store
use smolkafka.Store.{Store}
use smolkafka.Store.Frames.{Shows as StoreShows, frames-nil}
use smolkafka.Store.Read.{new_store-Shows}
use smolkafka.Index
use smolkafka.Index.{Index, minus_one, add64}
use smolkafka.Index.Entries.{entries, entries-nil}
use smolkafka.Index.Mapped.{new_index_lem}
use smolkafka.Disk.{Dir, lookup, put, lookup-put, open_file-none, save}
use smolkafka.Disk.Listing.{file_names, file_names-put, has_name-none, names_made_lem}
use smolkafka.Names.{store_name, index_name, names_differ}
use smolkafka.Segment.{Segment, Config, index_on_file, new_segment, close}
use smolkafka.Segment.Holds.{Holds, places, places-nil, length-places}
use smolkafka.Segment.Files.{next_after-places, Spares, new_segment_lem, close_lem}

module _ (os : Platform) where
  -- `newSegment` where there are no files yet starts an empty segment.
  pub new_segment-fresh :
      (base : ℕ) (c : Config) (d : Dir)
      → d.exists ≡ true
      → lookup (store_name base) d.files ≡ none
      → lookup (index_name base) d.files ≡ none
      → 0 < c.max_index_bytes
      → c.max_index_bytes < 2 ^ 32
      → base < 2 ^ 63
      → Returns (new_segment os base c d) (λ s d'.
        Holds s []
        × (s.base_offset ≡ base)
        × (s.config ≡ c)
        × (d'.exists ≡ true)
        × Spares base d d'
        × (file_names d'.files ≡ file_names d.files ++ (store_name base ∷ index_name base ∷ [])))
  unfolding new_segment index_on_file save
  new_segment-fresh base c d e no_store no_index pos small base_small =
      let (i, opened, shows) =
        new_index_lem os (places 0 0 []) c.max_index_bytes (omega (arith, length-places 0 0 [])) pos
          (omega arith) in
      let nothing : entries (places 0 0 []) ≡ [] = ap entries (places-nil 0 0) ∙ entries-nil in
      let opened' = subst (λ b. (Index.new_index os c.max_index_bytes b).0 ≡ ok i) nothing opened in
      let d' : Dir = record d { files = put (store_name base) [] d.files } in
      let no_index' : lookup (index_name base) d'.files ≡ none =
        simp (lookup-put, (names_differ base).0) no_index in
      rw
        (
          open_file-none (store_name base) d e no_store,
          open_file-none (index_name base) d' e no_index',
          opened',
          next_after-places base i [] c.max_index_bytes shows small
              (omega (arith, ap length frames-nil)) base_small,
        )
        (
          record {
            store = Store.new_store [];
            index = i;
            base_offset = base;
            next_offset = base + 0;
            config = c;
          },
          refl,
          (
            record {
              store_lem =
                  subst (λ b. StoreShows (Store.new_store []) b (length b)) (sym frames-nil)
                    (new_store-Shows []);
              index_lem = shows;
              next_lem = refl;
              base_small = base_small;
              index_small = small;
              store_small = omega (arith, ap length frames-nil);
            },
            refl,
            refl,
            e,
            λ n no_store no_index. simp (lookup-put, no_store, no_index),
            simp file_names-put (
                names_made_lem base (file_names d.files)
                  (has_name-none (store_name base) d.files no_store)
                  (has_name-none (index_name base) d.files no_index)),
          ),
        )

  -- If a segment holds payloads, its directory exists and its index limit is not 0, then `Close`
  -- succeeds, and `newSegment` at the segment's base offset then opens a segment that holds the
  -- same payloads.
  pub new_segment-close :
      (s : Segment) (ps : List Bytes) (d : Dir)
      → Holds s ps
      → d.exists ≡ true
      → 0 < s.config.max_index_bytes
      → Returns (close os (s, d)) (λ _ (t, d').
        Returns
          (new_segment os s.base_offset s.config d')
          (λ u _. Holds u ps × (u.base_offset ≡ s.base_offset) × (u.config ≡ s.config)))
  new_segment-close s ps d h e pos =
      let (u, closed, (disk, _, _, _)) = close_lem os s ps d h e in
      let (t, opened, (ht, tb, tc, _, _, _)) =
        new_segment_lem os s.base_offset s.config ps (close os (s, d)).1.1 disk
          (omega (arith, length-places 0 0 ps, h.index_lem.fits, h.index_lem.size_lem)) pos
          h.index_small h.store_small h.base_small in
      (u, closed, (t, opened, (ht, tb, tc)))
