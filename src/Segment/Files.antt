-- ===== src/Segment/Files.antt =====
-- A segment that is closed, and one that is opened on its files.
use mathlib.Core.Path.{subst}
use smolkafka.Prelude.{
  ℕ, ◌+◌, ◌*◌, ◌^◌, ◌≤◌, ◌<◌, ◌≡◌, refl, ◌∙◌, ap, true, false, some, List, [], ◌∷◌, arith, length,
  length-append, end_view, inl, inr,
}
use smolkafka.Exec.{ok}
use smolkafka.Exec.Returns.{Returns}
use smolkafka.Bytes.{Bytes}
use smolkafka.Platform.{Platform}
use smolkafka.Store
use smolkafka.Store.{Store}
use smolkafka.Store.Frames.{frames}
use smolkafka.Store.Read.{close_lem as store_close_lem, new_store-Shows}
use smolkafka.Index
use smolkafka.Index.{Index, minus_one, add64}
use smolkafka.Index.Entries.{Shows as IndexShows, entries}
use smolkafka.Index.Laws.{read-last, read-empty}
use smolkafka.Index.Mapped.{new_index_lem, close_lem as index_close_lem}
use smolkafka.Disk.{Name, name_eq, Dir, name_eq_refl, lookup, put, lookup-put, open_file-some, save}
use smolkafka.Disk.Listing.{file_names, put_name, file_names-put, names_closed}
use smolkafka.Names.{store_name, index_name, names_differ}
use smolkafka.Segment.{Segment, Config, next_after, index_on_file, new_segment, close}
use smolkafka.Segment.Holds.{
  Holds, IsSame, places, places-nil, places-end_zero, length-places, bytes_of, bytes_of-end,
}

-- The offset that `newSegment` goes on with is the one after the last record.
pub next_after-places :
    (base : ℕ) (i : Index) (ps : List Bytes) (cap : ℕ)
    → IndexShows i (places 0 0 ps) cap
    → cap < 2 ^ 32
    → bytes_of ps < 2 ^ 63
    → base < 2 ^ 63
    → next_after base (Index.read minus_one i) ≡ ok (base + length ps)
unfolding next_after
next_after-places base i ps cap h small bytes_small base_small = elim (end_view ps) [
  | inl e ↦
      ap (next_after base) {x = Index.read minus_one i} (
        read-empty i cap minus_one
          (subst (λ es. IndexShows i es cap) (ap (places 0 0) e ∙ places-nil 0 0) h))
      ∙ ap ok {x = base} {y = base + length ps} (omega (arith, ap length e))
  | inr (qs, p, e) ↦
      let count : 12 * (length qs + 1) ≤ cap =
        omega (
          arith,
          ap length e,
          length-append qs (p ∷ []),
          length-places 0 0 ps,
          h.size_lem,
          h.fits,
        ) in
      let bytes : bytes_of qs < 2 ^ 63 = omega (arith, ap bytes_of e, bytes_of-end qs p) in
      ap (next_after base) (
        read-last i (places 0 0 qs) cap (length qs) (bytes_of qs)
          (subst (λ es. IndexShows i es cap) (ap (places 0 0) e ∙ places-end_zero qs p) h)
          (omega (arith, count)) (omega (arith, bytes))
          (omega (arith, count, length-places 0 0 qs)))
      ∙ ap ok (omega (arith, count, ap length e, length-append qs (p ∷ [])))
]

-- A directory with a segment's two files, of the payloads `ps`.
pub record OnDisk (base : ℕ) (ps : List Bytes) (d : Dir) : Type 0 where
  pub exists_lem : d.exists ≡ true
  pub store_lem : lookup (store_name base) d.files ≡ some (frames ps)
  pub index_lem : lookup (index_name base) d.files ≡ some (entries (places 0 0 ps))

-- Files of other segments are as they were.
abbrev pub Spares : ℕ → Dir → Dir → Type 0
Spares base d d' =
    (n : Name)
    → name_eq (store_name base) n ≡ false
    → name_eq (index_name base) n ≡ false
    → lookup n d'.files ≡ lookup n d.files

pub file_names-save_both :
    (base : ℕ) (stored indexed : Bytes) (d : Dir)
    → file_names (save (store_name base) stored (save (index_name base) indexed d)).files
      ≡ names_closed base (file_names d.files)
unfolding save
file_names-save_both base stored indexed d =
    file_names-put (store_name base) stored (put (index_name base) indexed d.files)
    ∙ ap (put_name (store_name base)) (file_names-put (index_name base) indexed d.files)

pub saved-OnDisk :
    (base : ℕ) (ps : List Bytes) (stored indexed : Bytes) (d : Dir)
    → d.exists ≡ true
    → stored ≡ frames ps
    → indexed ≡ entries (places 0 0 ps)
    → OnDisk base ps (save (store_name base) stored (save (index_name base) indexed d))
unfolding save
saved-OnDisk base ps stored indexed d e se ie = record {
  exists_lem = e;
  store_lem = simp (lookup-put, name_eq_refl) (ap some se);
  index_lem = simp (lookup-put, name_eq_refl, (names_differ base).0) (ap some ie);
}

module _ (os : Platform) where
  -- `newSegment` on the files of a segment takes up what they hold.
  pub new_segment_lem :
      (base : ℕ) (c : Config) (ps : List Bytes) (d : Dir)
      → OnDisk base ps d
      → 12 * length ps ≤ c.max_index_bytes
      → 0 < c.max_index_bytes
      → c.max_index_bytes < 2 ^ 32
      → bytes_of ps < 2 ^ 63
      → base < 2 ^ 63
      → Returns (new_segment os base c d) (λ s d'.
        Holds s ps
        × (s.base_offset ≡ base)
        × (s.config ≡ c)
        × (d'.exists ≡ true)
        × (file_names d'.files ≡ put_name (index_name base) (file_names d.files))
        × Spares base d d')
  unfolding new_segment index_on_file save
  new_segment_lem base c ps d h fits pos small bytes_small base_small =
      let (i, opened, shows) =
        new_index_lem os (places 0 0 ps) c.max_index_bytes (omega (arith, length-places 0 0 ps)) pos
          (omega arith) in
      rw
        (
          open_file-some (store_name base) (frames ps) d h.exists_lem h.store_lem,
          open_file-some (index_name base) (entries (places 0 0 ps)) d h.exists_lem h.index_lem,
          opened,
          next_after-places base i ps c.max_index_bytes shows small bytes_small base_small,
        )
        (
          record {
            store = Store.new_store (frames ps);
            index = i;
            base_offset = base;
            next_offset = base + length ps;
            config = c;
          },
          refl,
          (
            record {
              store_lem = new_store-Shows (frames ps);
              index_lem = shows;
              next_lem = refl;
              base_small = base_small;
              index_small = small;
              store_small = bytes_small;
            },
            refl,
            refl,
            h.exists_lem,
            file_names-put (index_name base) _ d.files,
            λ n no_store no_index. simp (lookup-put, no_index),
          ),
        )

  -- `Close` leaves the segment's files, so that a new segment on them holds the same payloads.
  pub close_lem :
      (s : Segment) (ps : List Bytes) (d : Dir)
      → Holds s ps
      → d.exists ≡ true
      → Returns (close os (s, d)) (λ _ (t, d').
        OnDisk s.base_offset ps d'
        × IsSame s t
        × Spares s.base_offset d d'
        × (file_names d'.files ≡ names_closed s.base_offset (file_names d.files)))
  unfolding close
  close_lem s ps d h e =
      let (b, closed_index, (kept, same)) =
        index_close_lem os s.index (places 0 0 ps) s.config.max_index_bytes h.index_lem in
      let (_, closed_store, (_, on_file)) =
        store_close_lem s.store (frames ps) (bytes_of ps) h.store_lem in
      rw (closed_index, closed_store)
        (
          tt,
          refl,
          (
            saved-OnDisk s.base_offset ps (Store.close s.store).1.file.contents b d e on_file kept,
            record { base_lem = refl; next_lem = refl; config_lem = refl },
            λ n no_store no_index. unfold save in simp (lookup-put, no_store, no_index),
            file_names-save_both s.base_offset (Store.close s.store).1.file.contents b d,
          ),
        )
