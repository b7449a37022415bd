-- ===== src/Segment/Position.antt =====
-- `Append` of a segment and the position of its store's descriptor.
use smolkafka.Prelude.{ℕ, zero, suc, ◌%◌, ◌^◌, ◌≡◌, refl, ◌∙◌, [], ◌∷◌, ◌++◌, drop}
use smolkafka.Exec.{pure, lift, modify, ◌>>◌}
use smolkafka.Platform.{Platform, Record}
use smolkafka.Bytes.{Bytes}
use smolkafka.Store
use smolkafka.Store.Frames.{frames-nil}
use smolkafka.Store.Position.{Stays, Stays-bind, AtEnd, append-AtEnd}
use smolkafka.Index
use smolkafka.Index.{add64}
use smolkafka.Segment.{Segment, sub64, append, in_store, in_index}
use smolkafka.Segment.Holds.{Holds}

module _ (os : Platform) where
  -- Nothing comes to stand behind the position.
  pub segment_append-AtEnd : (r : Record) → Stays (λ (s : Segment). AtEnd s.store) (append os r)
  unfolding append
  segment_append-AtEnd r s h =
      Stays-bind (λ (s : Segment). AtEnd s.store)
        (lift (os.marshal (record r { offset = s.next_offset }))) _ (λ t k. k)
        (λ p.
          Stays-bind (λ (s : Segment). AtEnd s.store) (in_store (Store.append p)) _
            (λ t. append-AtEnd p t.store)
            (λ (w, pos) t k.
              Stays-bind (λ (s : Segment). AtEnd s.store)
                (in_index (Index.write (sub64 t.next_offset t.base_offset % 2 ^ 32) pos))
                (λ _.
                  modify (λ (s : Segment). record s { next_offset = add64 s.next_offset 1 })
                  >> pure s.next_offset)
                (λ u k'. k') (λ _ u k'. k') t k))
        s h

-- A file that holds nothing has nothing behind the position.
pub Holds-AtEnd : (s : Segment) → Holds s [] → AtEnd s.store
Holds-AtEnd s h =
    let nothing : s.store.file.contents ≡ [] =
      first s.store.file.contents s.store.buf (h.store_lem.bytes_lem ∙ frames-nil) in
    rw nothing (drop_none s.store.file.pos)
  where
    first : (xs ys : Bytes) → xs ++ ys ≡ [] → xs ≡ []
    first [] ys e = refl
    first (x ∷ xs) ys e = cc

    drop_none : (n : ℕ) → drop {A = ℕ} n [] ≡ []
    drop_none zero = refl
    drop_none (suc n) = refl
