-- ===== src/Segment/Read.antt =====
-- `Read` of a segment: through the index to the store.
use smolkafka.Prelude.{
  ℕ, ◌+◌, ◌≡◌, refl, ◌∙◌, ap, sym, some, List, ◌++◌, arith, length, length-append, get_elem?,
  get_elem?-lt,
}
use mathlib.Core.Path.{subst}
use smolkafka.Exec.{ok}
use smolkafka.Bytes.{Bytes}
use smolkafka.Platform.{Platform}
use smolkafka.Store
use smolkafka.Store.{Store}
use smolkafka.Store.Frames.{Shows as StoreShows, frame, length-frame}
use smolkafka.Store.Read.{store_read_lem}
use smolkafka.Index.Laws.{read-entry}
use smolkafka.Segment.{Segment, sub64, read}
use smolkafka.Segment.Holds.{Holds, IsSame, places, bytes_of, length-places, place}

module _ (os : Platform) where
  -- `Read` of the `k`-th offset from a segment's base returns what the `k`-th payload is
  -- unmarshalled to, and the segment goes on holding the same payloads.
  pub segment_read_lem :
      (s : Segment) (ps : List Bytes) (k : ℕ) (p : Bytes)
      → Holds s ps
      → get_elem? ps k ≡ some p
      → ((read os (s.base_offset + k) s).0 ≡ os.unmarshal p)
        × Holds (read os (s.base_offset + k) s).1 ps
        × IsSame s (read os (s.base_offset + k) s).1
  unfolding read
  segment_read_lem s ps k p h at =
      let (xs, ys, split, found) = place 0 0 k ps p at in
      let bound : length xs + (length p + 8) + length ys ≡ bytes_of ps = omega (
        arith,
        ap length split,
        length-append xs (frame p ++ ys),
        length-append (frame p) ys,
        length-frame p,
      ) in
      let entry =
        read-entry s.index (places 0 0 ps) s.config.max_index_bytes k k (length xs) h.index_lem
          (found ∙ ground arith) (omega (arith, get_elem?-lt ps k at, length-places 0 0 ps))
          (omega (arith, h.store_small))
          (omega (arith, get_elem?-lt ps k at, length-places 0 0 ps)) in
      let (q, payload, (same, shows)) =
        store_read_lem s.store xs p ys (bytes_of ps)
          (subst (λ b. StoreShows s.store b (bytes_of ps)) split h.store_lem)
          (omega (arith, ap length split, h.store_small)) in
      rw (number, entry, payload ∙ ap ok same)
        (
          refl,
          record {
            store_lem =
                subst (λ b. StoreShows (Store.read (length xs) s.store).1 b (bytes_of ps))
                  (sym split) shows;
            index_lem = h.index_lem;
            next_lem = h.next_lem;
            base_small = h.base_small;
            index_small = h.index_small;
            store_small = h.store_small;
          },
          record { base_lem = refl; next_lem = refl; config_lem = refl },
        )
    where
      number : sub64 (s.base_offset + k) s.base_offset ≡ k
      number = omega (arith, get_elem?-lt ps k at, length-places 0 0 ps)
