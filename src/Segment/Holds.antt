-- ===== src/Segment/Holds.antt =====
-- What a segment holds: the payloads of its records, in order, with an index entry for each.
use smolkafka.Prelude.{
  ℕ, zero, suc, ◌+◌, ◌^◌, ◌<◌, ◌≡◌, refl, ◌∙◌, ap, some, List, [], ◌∷◌, ◌++◌, arith, length,
  length-append, get_elem?, append_assoc, sym,
}
use smolkafka.Bytes.{Bytes}
use smolkafka.Store.Frames.{
  Shows as StoreShows, frame, frames, length-frame, frames-cons, frames-nil, frames-end,
}
use smolkafka.Index.Entries.{Shows as IndexShows}
use smolkafka.Segment.{Segment}

-- The entries of the records `ps`, if the first has the number `k` and stands at `pos`.
pub places : ℕ → ℕ → List Bytes → List (ℕ × ℕ)
places k pos [] = []
places k pos (p ∷ ps) = (k, pos) ∷ places (k + 1) (pos + (length p + 8)) ps

-- The size of a store of these records.
abbrev pub bytes_of : List Bytes → ℕ
bytes_of ps = length (frames ps)

-- An open segment that holds the payloads `ps` and whose numbers are small enough to be stored.
pub record Holds (s : Segment) (ps : List Bytes) : Type 0 where
  pub store_lem : StoreShows s.store (frames ps) (bytes_of ps)
  pub index_lem : IndexShows s.index (places 0 0 ps) s.config.max_index_bytes
  pub next_lem : s.next_offset ≡ s.base_offset + length ps
  pub base_small : s.base_offset < 2 ^ 63
  pub index_small : s.config.max_index_bytes < 2 ^ 32
  pub store_small : bytes_of ps < 2 ^ 63

pub length-places : (k pos : ℕ) (ps : List Bytes) → length (places k pos ps) ≡ length ps
unfolding places
length-places k pos [] = refl
length-places k pos (p ∷ ps) = ap suc (length-places (k + 1) (pos + (length p + 8)) ps)

pub bytes_of-cons : (p : Bytes) (ps : List Bytes) → bytes_of (p ∷ ps) ≡ (length p + 8) + bytes_of ps
bytes_of-cons p ps =
    ap length (frames-cons p ps)
    ∙ length-append (frame p) (frames ps)
    ∙ ap (λ n. n + bytes_of ps) (length-frame p)

pub bytes_of-end :
    (ps : List Bytes) (p : Bytes) → bytes_of (ps ++ (p ∷ [])) ≡ bytes_of ps + length p + 8
bytes_of-end ps p =
    ap length (frames-end ps p)
    ∙ length-append (frames ps) (frame p)
    ∙ omega (arith, length-frame p)

pub places-end :
    (k pos : ℕ) (ps : List Bytes) (p : Bytes)
    → places k pos (ps ++ (p ∷ [])) ≡ places k pos ps ++ ((k + length ps, pos + bytes_of ps) ∷ [])
unfolding places
places-end k pos [] p = ground (arith, frames-nil)
places-end k pos (q ∷ ps) p =
    ground (arith, places-end (k + 1) (pos + (length q + 8)) ps p, bytes_of-cons q ps)

-- The entry of a record names the place where its frame stands.
pub place :
    (k pos i : ℕ) (ps : List Bytes) (p : Bytes)
    → get_elem? ps i ≡ some p
    → (xs ys : Bytes) × (frames ps ≡ xs ++ (frame p ++ ys))
      × (get_elem? (places k pos ps) i ≡ some (k + i, pos + length xs))
unfolding places
place k pos i [] p h = cc
place k pos zero (q ∷ ps) p h = ([], frames ps, cc (frames-cons q ps), ground arith)
place k pos (suc i) (q ∷ ps) p h =
    let (xs, ys, split, at) = place (k + 1) (pos + (length q + 8)) i ps p h in
    (
      frame q ++ xs,
      ys,
      frames-cons q ps
          ∙ ap (λ b. frame q ++ b) split
          ∙ sym (append_assoc (frame q) xs (frame p ++ ys)),
      ground (arith, at, length-append (frame q) xs, length-frame q),
    )

pub places-end_zero :
    (ps : List Bytes) (p : Bytes)
    → places 0 0 (ps ++ (p ∷ [])) ≡ places 0 0 ps ++ ((length ps, bytes_of ps) ∷ [])
places-end_zero ps p = places-end 0 0 ps p ∙ ground arith

-- A segment `t` with the offsets and the configuration of `s`.
pub record IsSame (s t : Segment) : Type 0 where
  pub base_lem : t.base_offset ≡ s.base_offset
  pub next_lem : t.next_offset ≡ s.next_offset
  pub config_lem : t.config ≡ s.config

pub places-nil : (k pos : ℕ) → places k pos [] ≡ []
unfolding places
places-nil k pos = refl
