-- ===== src/Log/Read.antt =====
-- `Read` of a log: the segment with the offset answers.
use mathlib.Core.Path.{subst}
use smolkafka.Prelude.{
  ℕ, ◌+◌, ◌-◌, ◌≤◌, ◌<◌, ◌≡◌, ◌⊎◌, refl, ◌∙◌, ap, sym, inl, inr, true, false, ◌&&◌, some, List, [],
  ◌∷◌, ◌++◌, arith, length, length-append, get_elem?, get_elem?-lt, get_elem?-append_left,
  get_elem?-append_right, dec_lt, flatten, flatten-end, leb, ltb,
}
use smolkafka.Exec.{err, offset_out_of_range}
use smolkafka.Bytes.{Bytes}
use smolkafka.Platform.{Platform}
use smolkafka.Segment
use smolkafka.Segment.{Segment, Config}
use smolkafka.Segment.Holds.{Holds as SegmentHolds}
use smolkafka.Segment.Read.{segment_read_lem}
use smolkafka.Log.{Log, read_in, read}
use smolkafka.Log.Chain.{Chain}
use smolkafka.Log.Holds.{Holds}

module _ (os : Platform) where
  -- An offset in the first segment.
  read_in-here :
      (c : Config) (base k : ℕ) (s : Segment) (ss : List Segment) (ps : List Bytes)
      (pss : List (List Bytes)) (p : Bytes)
      → Chain c base (s ∷ ss) (ps ∷ pss)
      → get_elem? ps k ≡ some p
      → ((read_in os (base + k) (s ∷ ss)).0 ≡ os.unmarshal p)
        × Chain c base (read_in os (base + k) (s ∷ ss)).1 (ps ∷ pss)
  unfolding read_in
  read_in-here c base k s ss ps pss p (hs, hb, hc, rest) at =
      let (e, ht, same) = segment_read_lem os s ps k p hs at in
      let found : (leb s.base_offset (base + k) && ltb (base + k) s.next_offset) ≡ true =
        ground (arith, get_elem?-lt ps k at) in
      rw found (
        subst (λ b. (Segment.read os (b + k) s).0 ≡ os.unmarshal p) hb e,
        (
          subst (λ b. SegmentHolds (Segment.read os (b + k) s).1 ps) hb ht,
          subst (λ b. (Segment.read os (b + k) s).1.base_offset ≡ s.base_offset) hb same.base_lem
              ∙ hb,
          subst (λ b. (Segment.read os (b + k) s).1.config ≡ s.config) hb same.config_lem ∙ hc,
          rest,
        ),
      )

  read_in-lem :
      (c : Config) (base k : ℕ) (ss : List Segment) (pss : List (List Bytes)) (p : Bytes)
      → Chain c base ss pss
      → get_elem? (flatten pss) k ≡ some p
      → ((read_in os (base + k) ss).0 ≡ os.unmarshal p)
        × Chain c base (read_in os (base + k) ss).1 pss
  unfolding read_in
  read_in-lem c base k [] [] p h at = cc
  read_in-lem c base k [] (ps ∷ pss) p h at = absurd h
  read_in-lem c base k (s ∷ ss) [] p h at = absurd h
  read_in-lem c base k (s ∷ ss) (ps ∷ pss) p (hs, hb, hc, rest) at = elim (dec_lt k (length ps)) [
    | yes lt ↦
        read_in-here c base k s ss ps pss p (hs, hb, hc, rest)
          (sym (get_elem?-append_left ps (flatten pss) k lt) ∙ at)
    | no ge ↦
        let shift : base + length ps + (k - length ps) ≡ base + k = omega arith in
        let (e, chain) =
          read_in-lem c (base + length ps) (k - length ps) ss pss p rest
            (sym (get_elem?-append_right ps (flatten pss) k (omega arith)) ∙ at) in
        let missed : (leb s.base_offset (base + k) && ltb (base + k) s.next_offset) ≡ false =
          ground (arith, hs.next_lem) in
        rw missed (
          subst (λ n. (read_in os n ss).0 ≡ os.unmarshal p) shift e,
          (hs, hb, hc, subst (λ n. Chain c (base + length ps) (read_in os n ss).1 pss) shift chain),
        )
  ]

  read_in-past :
      (c : Config) (base off : ℕ) (ss : List Segment) (pss : List (List Bytes))
      → Chain c base ss pss
      → (off < base) ⊎ (base + length (flatten pss) ≤ off)
      → read_in os off ss ≡ (err (offset_out_of_range off), ss)
  unfolding read_in
  read_in-past c base off [] [] h out = refl
  read_in-past c base off [] (ps ∷ pss) h out = absurd h
  read_in-past c base off (s ∷ ss) [] h out = absurd h
  read_in-past c base off (s ∷ ss) (ps ∷ pss) (hs, hb, hc, rest) out =
      let outside : (leb s.base_offset off && ltb off s.next_offset) ≡ false =
        ground (arith, hs.next_lem, length-append ps (flatten pss)) in
      rw (outside, read_in-past c (base + length ps) off ss pss rest (beyond out))
    where
      beyond :
          (off < base) ⊎ (base + length (ps ++ flatten pss) ≤ off)
          → (off < base + length ps) ⊎ (base + length ps + length (flatten pss) ≤ off)
      beyond (inl below) = inl (omega arith)
      beyond (inr above) = inr (omega (arith, length-append ps (flatten pss)))

  -- `Read` of an offset that the log holds returns what its payload is unmarshalled to, from
  -- whichever segment, and the log goes on holding the same payloads with the same configuration.
  pub log_read_lem :
      (l : Log) (base k : ℕ) (fs : List Bytes) (p : Bytes)
      → Holds l base fs
      → get_elem? fs k ≡ some p
      → ((read os (base + k) l).0 ≡ os.unmarshal p)
        × Holds (read os (base + k) l).1 base fs
        × ((read os (base + k) l).1.config ≡ l.config)
  unfolding read
  log_read_lem l base k fs p h at =
      let all = flatten-end h.earlier h.last in
      let (e, chain) =
        read_in-lem l.config base k l.segments (h.earlier ++ (h.last ∷ [])) p h.chain
          (ap (λ ps. get_elem? ps k) (all ∙ sym h.all_lem) ∙ at) in
      (
        e,
        record {
          earlier = h.earlier;
          last = h.last;
          all_lem = h.all_lem;
          chain = chain;
          active_lem = h.active_lem;
          fresh = h.fresh;
          store_room = h.store_room;
          index_room = h.index_room;
          index_small = h.index_small;
          filled = h.filled;
          listed = h.listed;
        },
        refl,
      )

  -- `Read` of an offset that a log does not hold, below its first or from its next on, answers
  -- that it is out of range, and changes nothing.
  pub log_read-past :
      (l : Log) (base off : ℕ) (fs : List Bytes)
      → Holds l base fs
      → (off < base) ⊎ (base + length fs ≤ off)
      → read os off l ≡ (err (offset_out_of_range off), l)
  unfolding read
  log_read-past l base off fs h out =
      rw (read_in-past l.config base off l.segments (h.earlier ++ (h.last ∷ [])) h.chain (same out))
    where
      same :
          (off < base) ⊎ (base + length fs ≤ off)
          → (off < base) ⊎ (base + length (flatten (h.earlier ++ (h.last ∷ []))) ≤ off)
      same (inl below) = inl below
      same (inr above) =
          inr (omega (arith, ap length (flatten-end h.earlier h.last), ap length h.all_lem))
