-- ===== src/Log/Contract/Bounds.antt =====
-- The sizes of a log's segments, whatever calls have been made of it.
use mathlib.Core.Path.{subst}
use smolkafka.Prelude.{ℕ, ◌+◌, ◌-◌, ◌*◌, ◌^◌, ◌<◌, ◌≤◌, ◌≡◌, ap, List, [], ◌∷◌, ◌++◌, arith, length}
use smolkafka.Bytes.{Bytes}
use smolkafka.Platform.{Platform}
use smolkafka.Segment.{Segment, Config}
use smolkafka.Segment.Holds.{Holds as SegmentHolds, length-places}
use smolkafka.Log.{Log}
use smolkafka.Log.Chain.{Chain}
use smolkafka.Log.Contract.{Contents, Call, MayRun, perform_all}
use smolkafka.Log.Contract.Runs.{Has, perform_all-Promised}

-- The index of a segment has an entry of 12 bytes for each offset and does not exceed its limit, and
-- the offsets and the sizes are below the bounds of the machine's integers.
pub record IsBounded (c : Config) (s : Segment) : Type 0 where
  pub count_lem : s.index.size ≡ 12 * (s.next_offset - s.base_offset)
  pub order_lem : s.base_offset ≤ s.next_offset
  pub limit_lem : s.index.size ≤ c.max_index_bytes
  pub offsets_small : s.next_offset < 2 ^ 64
  pub store_small : s.store.size < 2 ^ 63

Holds-IsBounded :
    (s : Segment) (ps : List Bytes) (c : Config) → SegmentHolds s ps → s.config ≡ c → IsBounded c s
Holds-IsBounded s ps c h same =
    let entries : s.index.size ≡ 12 * length ps =
      omega (arith, h.index_lem.size_lem, length-places 0 0 ps) in
    let limit : s.config.max_index_bytes ≡ c.max_index_bytes =
      ap (λ (k : Config). k.max_index_bytes) same in
    record {
      count_lem = omega (arith, entries, h.next_lem);
      order_lem = omega (arith, h.next_lem);
      limit_lem = omega (arith, h.index_lem.fits, limit);
      offsets_small =
          omega (arith, entries, h.index_lem.fits, h.index_small, h.next_lem, h.base_small);
      store_small = omega (arith, h.store_lem.size_lem, h.store_small);
    }

abbrev pub AllBounded : Config → List Segment → Type 0
AllBounded c [] = Unit
AllBounded c (s ∷ ss) = IsBounded c s × AllBounded c ss

Chain-AllBounded :
    (c : Config) (base : ℕ) (ss : List Segment) (pss : List (List Bytes))
    → Chain c base ss pss
    → AllBounded c ss
Chain-AllBounded c base [] pss h = tt
Chain-AllBounded c base (s ∷ ss) [] h = absurd h
Chain-AllBounded c base (s ∷ ss) (ps ∷ pss) (hs, hb, hc, rest) =
    (Holds-IsBounded s ps c hs hc, Chain-AllBounded c (base + length ps) ss pss rest)

module _ (os : Platform) (c : Config) where
  -- After every run of calls, each made when it may be, of a log that has some contents, each
  -- segment has an index of 12 bytes for each of its offsets, which does not exceed the index
  -- limit, a next offset below 2 ^ 64, and a store below 2 ^ 63 bytes.
  pub perform_all-AllBounded :
      (calls : List Call) (l : Log) (a : Contents)
      → Has c l a
      → MayRun os c calls a
      → AllBounded c (perform_all os calls l).1.segments
  perform_all-AllBounded calls l a h may =
      let (b, _, has) = perform_all-Promised os c calls l a h may in
      let l' = (perform_all os calls l).1 in
      let pss = has.holds.earlier ++ (has.holds.last ∷ []) in
      Chain-AllBounded c b.first l'.segments pss
        (subst (λ k. Chain k b.first l'.segments pss) has.config_lem has.holds.chain)
