-- ===== src/Segment/Append.antt =====
-- `Append` of a segment, with room in the index and without.
use smolkafka.Prelude.{
  ℕ, ◌+◌, ◌*◌, ◌%◌, ◌^◌, ◌≤◌, ◌<◌, ◌≡◌, ◌≢◌, refl, ◌∙◌, ap, List, [], ◌∷◌, ◌++◌, arith, length,
  length-append, sym, inl, inr,
}
use smolkafka.Exec.{ok, Result-cases}
use smolkafka.Exec.Returns.{Returns}
use smolkafka.Bytes.{Bytes}
use smolkafka.Platform.{Platform, Record}
use smolkafka.Store
use smolkafka.Store.{Store}
use smolkafka.Store.Append.{store_append_lem}
use smolkafka.Store.Frames.{frames, frames-end}
use smolkafka.Index.Laws.{write-room}
use smolkafka.Index.Mapped.{write-no_room}
use smolkafka.Segment.{Segment, sub64, append}
use smolkafka.Segment.Holds.{Holds, places, bytes_of, bytes_of-end, length-places, places-end_zero}

-- An index whose map has no room for another entry, though the segment does not count as maxed.
pub record IsStuck (s : Segment) : Type 0 where
  pub no_room : length s.index.mmap < s.index.size + 12
  pub size_small : s.index.size < 2 ^ 63
  pub not_maxed : s.index.size < s.config.max_index_bytes

module _ (os : Platform) where
  -- With room for one more index entry and a store that stays below 2 ^ 63 bytes, `Append` to a
  -- segment of a record that is marshalled to `p` returns the segment's next offset, and the
  -- segment then holds `p` behind the others.
  pub segment_append_lem :
      (s : Segment) (ps : List Bytes) (r : Record) (p : Bytes)
      → Holds s ps
      → os.marshal (record r { offset = s.next_offset }) ≡ ok p
      → 12 * length ps + 12 ≤ s.config.max_index_bytes
      → bytes_of ps + length p + 8 < 2 ^ 63
      → Returns (append os r s) (λ off t.
        (off ≡ s.next_offset)
        × Holds t (ps ++ (p ∷ []))
        × (t.base_offset ≡ s.base_offset)
        × (t.config ≡ s.config))
  unfolding append
  segment_append_lem s ps r p h m room small =
      let (_, stored, (result, shows)) =
        store_append_lem p s.store (frames ps) (bytes_of ps) h.store_lem (omega arith) in
      let (_, indexed, entries) =
        write-room s.index (places 0 0 ps) s.config.max_index_bytes (length ps) (bytes_of ps)
          h.index_lem (omega (arith, length-places 0 0 ps)) in
      rw (m, stored ∙ ap ok result, number, indexed)
        (
          s.next_offset,
          refl,
          (
            refl,
            record {
              store_lem = record {
                is_open = shows.is_open;
                not_failed = shows.not_failed;
                bytes_lem = shows.bytes_lem ∙ sym (frames-end ps p);
                size_lem = shows.size_lem ∙ sym (bytes_of-end ps p);
              };
              index_lem = rw (places-end_zero ps p) entries;
              next_lem = omega (arith, length-append ps (p ∷ []), length-places 0 0 ps);
              base_small = h.base_small;
              index_small = h.index_small;
              store_small = omega (arith, bytes_of-end ps p);
            },
            refl,
            refl,
          ),
        )
    where
      number : sub64 s.next_offset s.base_offset % 2 ^ 32 ≡ length ps
      number = omega (arith, length-places 0 0 ps)

  -- On a segment whose map has no room for an entry and whose index is below its limit, no
  -- `Append` succeeds, whatever the record, and the segment stays so.
  pub append-IsStuck :
      (s : Segment) (r : Record)
      → IsStuck s
      → ((off : ℕ) → (append os r s).0 ≢ ok off) × IsStuck (append os r s).1
  unfolding append
  append-IsStuck s r h = elim (Result-cases (os.marshal (record r { offset = s.next_offset }))) [
    | inl (p, m) ↦ rw m (elim (Result-cases (Store.append p s.store).0) [
      | inl (at, stored) ↦
          rw (stored, write-no_room s.index _ _ h.no_room h.size_small)
            (
              λ off e. cc,
              record { no_room = h.no_room; size_small = h.size_small; not_maxed = h.not_maxed },
            )
      | inr (e, failed) ↦ rw failed (
        λ off e. cc,
        record { no_room = h.no_room; size_small = h.size_small; not_maxed = h.not_maxed },
      )
    ])
    | inr (e, m) ↦ rw m (λ off e. cc, h)
  ]
