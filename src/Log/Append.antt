-- ===== src/Log/Append.antt =====
-- `Append` of a log, with the change to a new segment when the active one is maxed.
use smolkafka.Prelude.{
  ℕ, ◌+◌, ◌*◌, ◌^◌, ◌≤◌, ◌<◌, ◌≡◌, refl, ◌∙◌, ap, sym, Bool, true, false, ◌||◌, List, [], ◌∷◌, ◌++◌,
  append_assoc, append-nil, arith, length, length-append, flatten, flatten-end, leb, if◌then◌else◌,
}
use mathlib.Core.Path.{subst, ap₂}
use smolkafka.Exec.{ok, pure}
use smolkafka.Exec.Returns.{Returns, Returns-bind}
use smolkafka.Bytes.{Bytes}
use smolkafka.Platform.{Platform, Record}
use smolkafka.Store.Frames.{frames-nil}
use smolkafka.Index.{add64}
use smolkafka.Segment
use smolkafka.Segment.{Segment, Config, is_maxed}
use smolkafka.Segment.Holds.{Holds as SegmentHolds, bytes_of, length-places}
use smolkafka.Segment.Append.{segment_append_lem}
use smolkafka.Log.{Log, on_active, ignore_error, new_segment, append}
use smolkafka.Log.Holds.{Holds}
use smolkafka.Log.Suits.{Suits, Suits-room}
use smolkafka.Log.Pending.{Pending, on_active-Pending, new_segment-Pending}

module _ (os : Platform) where
  pub Holds-Pending :
      (l : Log) (base : ℕ) (fs : List Bytes) (h : Holds l base fs) → Pending base h.earlier h.last l
  Holds-Pending l base fs h = record {
    chain = h.chain;
    active_lem = h.active_lem;
    fresh = h.fresh;
    index_small = h.index_small;
    index_pos = omega arith;
    store_pos = omega arith;
    filled = h.filled;
    listed = h.listed;
  }

  -- A pending log whose last segment is below both limits holds all its payloads.
  Pending-Holds :
      (base : ℕ) (earlier : List (List Bytes)) (last : List Bytes) (l : Log)
      → Pending base earlier last l
      → bytes_of last < l.config.max_store_bytes
      → 12 * length last < l.config.max_index_bytes
      → Holds l base (flatten earlier ++ last)
  Pending-Holds base earlier last l h stored indexed = record {
    earlier = earlier;
    last = last;
    all_lem = refl;
    chain = h.chain;
    active_lem = h.active_lem;
    fresh = h.fresh;
    store_room = stored;
    index_room = indexed;
    index_small = h.index_small;
    filled = h.filled;
    listed = h.listed;
  }

  -- Whether the active segment, with these payloads, has reached a limit.
  abbrev pub maxed_with : Config → List Bytes → Bool
  maxed_with c last =
      leb c.max_store_bytes (bytes_of last) || leb c.max_index_bytes (12 * length last)

  pub append_active-Pending :
      (base : ℕ) (earlier : List (List Bytes)) (last : List Bytes) (l : Log) (r : Record)
      (p : Bytes)
      → Pending base earlier last l
      → os.marshal (record r { offset = base + length (flatten earlier) + length last }) ≡ ok p
      → 12 * length last + 12 ≤ l.config.max_index_bytes
      → bytes_of last + length p + 8 < 2 ^ 63
      → Returns (on_active (Segment.append os r) l) (λ off l'.
        (off ≡ base + length (flatten earlier) + length last)
        × Pending base earlier (last ++ (p ∷ [])) l'
        × (l'.config ≡ l.config))
  append_active-Pending base earlier last l r p h m room small =
      on_active-Pending (Segment.append os r)
        (λ off. off ≡ base + length (flatten earlier) + length last) base earlier last
        (last ++ (p ∷ [])) l h
        (λ s hs sb sc.
          let next : s.next_offset ≡ base + length (flatten earlier) + length last =
            hs.next_lem ∙ omega (arith, sb) in
          let (off, e, (at, ht, tb, tc)) =
            segment_append_lem os s last r p hs
              (ap (λ n. os.marshal (record r { offset = n })) next ∙ m)
              (subst (λ (c : Config). 12 * length last + 12 ≤ c.max_index_bytes) (sym sc) room)
              small in
          (off, e, (at ∙ next, ht, record { base_lem = tb; config_lem = tc })))

  maxed_of :
      (s : Segment) (last : List Bytes) (c : Config)
      → SegmentHolds s last
      → s.config ≡ c
      → is_maxed s ≡ maxed_with c last
  unfolding is_maxed
  maxed_of s last c hs sc =
      let index_size : s.index.size ≡ 12 * length last =
        omega (arith, length-places 0 0 last, hs.index_lem.size_lem) in
      ap₂ (λ n m. leb s.config.max_store_bytes n || leb s.config.max_index_bytes m)
        hs.store_lem.size_lem index_size
      ∙ ap (λ d. maxed_with d last) sc

  pub is_maxed-Pending :
      (base : ℕ) (earlier : List (List Bytes)) (last : List Bytes) (l : Log)
      → Pending base earlier last l
      → Returns (on_active (λ s. (ok (is_maxed s), s)) l) (λ b l'.
        (b ≡ maxed_with l.config last) × Pending base earlier last l' × (l'.config ≡ l.config))
  is_maxed-Pending base earlier last l h =
      on_active-Pending (λ s. (ok (is_maxed s), s)) (λ b. b ≡ maxed_with l.config last) base earlier
        last last l h
        (λ s hs sb sc. (
          is_maxed s,
          refl,
          (maxed_of s last l.config hs sc, hs, record { base_lem = refl; config_lem = refl }),
        ))

  settle :
      (base off : ℕ) (b : Bool) (earlier : List (List Bytes)) (last : List Bytes) (l : Log)
      → Pending base earlier last l
      → 0 < length last
      → add64 off 1 ≡ base + length (flatten earlier) + length last
      → base + length (flatten earlier) + length last < 2 ^ 63
      → b ≡ maxed_with l.config last
      → Returns
          ((if b then ignore_error (new_segment os (add64 off 1)) else pure tt) l)
          (λ _ l'. Holds l' base (flatten earlier ++ last) × (l'.config ≡ l.config))
  settle base off true earlier last l h some at small e =
      let (k, c) = new_segment-Pending os base earlier last l h some small in
      rw at (
        tt,
        refl,
        (
          subst
              (λ fs.
                Holds (new_segment os (base + length (flatten earlier) + length last) l).1 base fs)
              (append-nil (flatten (earlier ++ (last ∷ []))) ∙ flatten-end earlier last)
              (Pending-Holds base (earlier ++ (last ∷ [])) []
                (new_segment os (base + length (flatten earlier) + length last) l).1 k
                (omega (
                  arith,
                  h.store_pos,
                  ap length frames-nil,
                  ap (λ (d : Config). d.max_store_bytes) c,
                ))
                (omega (arith, h.index_pos, ap (λ (d : Config). d.max_index_bytes) c))),
          c,
        ),
      )
  settle base off false earlier last l h some at small e =
      (tt, refl, (Pending-Holds base earlier last l h (ground arith) (ground arith), refl))

  -- On a log that holds payloads from a base offset on, whose limits suit its payloads (the index
  -- limit is a multiple of an entry's 12 bytes, or every payload is so long that the store is full
  -- first), `Append` of a record that is marshalled to `p` at the next offset returns that offset,
  -- and the log then holds `p` behind all else, whether or not it goes on in a new segment, if the
  -- store and the offset stay below 2 ^ 63.
  pub log_append_lem :
      (l : Log) (base : ℕ) (fs : List Bytes) (r : Record) (p : Bytes)
      → Holds l base fs
      → Suits l.config fs
      → os.marshal (record r { offset = base + length fs }) ≡ ok p
      → l.config.max_store_bytes + length p + 8 < 2 ^ 63
      → base + length fs + 1 < 2 ^ 63
      → Returns (append os r l) (λ off l'.
        (off ≡ base + length fs) × Holds l' base (fs ++ (p ∷ [])) × (l'.config ≡ l.config))
  unfolding append
  log_append_lem l base fs r p h suits m store_small small =
      let total : length fs ≡ length (flatten h.earlier) + length h.last =
        ap length h.all_lem ∙ length-append (flatten h.earlier) h.last in
      let next : base + length fs ≡ base + length (flatten h.earlier) + length h.last =
        omega (arith, total) in
      let last' = h.last ++ (p ∷ []) in
      let result = (λ (off : ℕ) (l' : Log).
        (off ≡ base + length fs) × Holds l' base (fs ++ (p ∷ [])) × (l'.config ≡ l.config)) in
      Returns-bind (on_active (Segment.append os r)) _ l
        (λ off l'.
          (off ≡ base + length (flatten h.earlier) + length h.last)
          × Pending base h.earlier last' l'
          × (l'.config ≡ l.config))
        result
        (append_active-Pending base h.earlier h.last l r p (Holds-Pending l base fs h)
          (ap (λ n. os.marshal (record r { offset = n })) (sym next) ∙ m)
          (Suits-room l.config (flatten h.earlier) h.last (subst (Suits l.config) h.all_lem suits)
            h.store_room h.index_room)
          (omega arith))
        (λ off l1 (at, pending, c1).
          let count = length-append h.last (p ∷ []) in
          Returns-bind (on_active (λ s. (ok (is_maxed s), s))) _ l1
            (λ b l2.
              (b ≡ maxed_with l1.config last')
              × Pending base h.earlier last' l2
              × (l2.config ≡ l1.config))
            result (is_maxed-Pending base h.earlier last' l1 pending)
            (λ b l2 (maxed, pending2, c2).
              Returns-bind (if b then ignore_error (new_segment os (add64 off 1)) else pure tt) _ l2
                (λ _ l3. Holds l3 base (flatten h.earlier ++ last') × (l3.config ≡ l2.config))
                result
                (settle base off b h.earlier last' l2 pending2 (omega (arith, count))
                  (omega (arith, count, at, total)) (omega (arith, count, total))
                  (maxed ∙ ap (λ c. maxed_with c last') (sym c2)))
                (λ _ l3 (holds, c3). (
                  off,
                  refl,
                  (
                    at ∙ sym next,
                    subst (Holds l3 base)
                        (sym (append_assoc (flatten h.earlier) h.last (p ∷ []))
                          ∙ ap (λ ps. ps ++ (p ∷ [])) (sym h.all_lem))
                        holds,
                    c3 ∙ c2 ∙ c1,
                  ),
                ))))
