-- ===== src/Log/Pending.antt =====
-- Between the append to the active segment and the choice of a new one.
use smolkafka.Prelude.{
  ℕ, ◌+◌, ◌^◌, ◌<◌, ◌≡◌, refl, ◌∙◌, ap, sym, true, false, List, [], ◌∷◌, ◌++◌, arith, length,
  length-append, flatten, flatten-end,
}
use mathlib.Core.Path.{subst}
use smolkafka.Exec.{Exec}
use smolkafka.Exec.Returns.{Returns}
use smolkafka.Bytes.{Bytes}
use smolkafka.Platform.{Platform}
use smolkafka.Disk.{Name, name_eq, Dir, lookup}
use smolkafka.Names.{store_name, index_name, segments_differ}
use smolkafka.Segment
use smolkafka.Segment.{Segment, Config, is_maxed}
use smolkafka.Segment.Holds.{Holds as SegmentHolds}
use smolkafka.Segment.Reopen.{new_segment-fresh}
use smolkafka.Log.{Log, in_list, on_active_of, on_active, new_segment}
use smolkafka.Log.Chain.{Chain, Keeps, with_last-Chain, Chain-end}
use smolkafka.Disk.Listing.{file_names, names_of, names_of-append}
use smolkafka.Log.Starts.{starts, AllFilled, AllFilled-end, starts-append}
use smolkafka.Log.Holds.{IsFresh}

-- What holds between the append to the active segment and the choice of a new one.
pub record Pending (base : ℕ) (earlier : List (List Bytes)) (last : List Bytes) (l : Log)
    : Type 0 where
  pub chain : Chain l.config base l.segments (earlier ++ (last ∷ []))
  pub active_lem : l.active ≡ in_list
  pub fresh : IsFresh (base + length (flatten earlier)) l.dir
  pub index_small : l.config.max_index_bytes < 2 ^ 32
  pub index_pos : 0 < l.config.max_index_bytes
  pub store_pos : 0 < l.config.max_store_bytes
  pub filled : AllFilled earlier
  pub listed : file_names l.dir.files ≡ names_of (starts base (earlier ++ (last ∷ [])))

-- A segment that grows begins where it did.
pub starts-last :
    (base : ℕ) (earlier : List (List Bytes)) (last last' : List Bytes)
    → starts base (earlier ++ (last ∷ [])) ≡ starts base (earlier ++ (last' ∷ []))
starts-last base [] last last' = refl
starts-last base (ps ∷ earlier) last last' =
    ap (λ t. base ∷ t) (starts-last (base + length ps) earlier last last')

-- A method of the active segment, where that is the last one.
pub on_active-Pending :
    {A : Type 0} (m : Exec Segment A) (R : A → Type 0) (base : ℕ) (earlier : List (List Bytes))
    (last last' : List Bytes) (l : Log)
    → Pending base earlier last l
    → ((s : Segment)
        → SegmentHolds s last
        → s.base_offset ≡ base + length (flatten earlier)
        → s.config ≡ l.config
        → Returns (m s) (λ a t. R a × SegmentHolds t last' × Keeps s t))
    → Returns (on_active m l) (λ a l'. R a × Pending base earlier last' l' × (l'.config ≡ l.config))
unfolding on_active on_active_of
on_active-Pending m R base earlier last last' l h f =
    let (a, e, (r, chain)) =
      with_last-Chain m R l.config base l.segments earlier last last' h.chain f in
    rw h.active_lem (
      a,
      e,
      (
        r,
        record {
          chain = chain;
          active_lem = refl;
          fresh = h.fresh;
          index_small = h.index_small;
          index_pos = h.index_pos;
          store_pos = h.store_pos;
          filled = h.filled;
          listed = h.listed ∙ ap names_of (starts-last base earlier last last');
        },
        refl,
      ),
    )

-- Files of other segments than the new one are as they were.
pub fresh-after :
    (last base : ℕ) (d d' : Dir)
    → last < base
    → base < 2 ^ 63
    → IsFresh last d
    → d'.exists ≡ true
    → ((n : Name)
        → name_eq (store_name base) n ≡ false
        → name_eq (index_name base) n ≡ false
        → lookup n d'.files ≡ lookup n d.files)
    → IsFresh base d'
fresh-after last base d d' lt small h e same = record {
  exists_lem = e;
  no_store = λ n after n_small.
      let (ss, _, _, is) = segments_differ base n (omega arith) (omega arith) (omega arith) in
      same (store_name n) ss is ∙ h.no_store n (omega arith) n_small;
  no_index = λ n after n_small.
      let (_, ii, si, _) = segments_differ base n (omega arith) (omega arith) (omega arith) in
      same (index_name n) si ii ∙ h.no_index n (omega arith) n_small;
}

module _ (os : Platform) where
  -- `newSegment` behind a segment that is not empty.
  pub new_segment-Pending :
      (base : ℕ) (earlier : List (List Bytes)) (last : List Bytes) (l : Log)
      → Pending base earlier last l
      → 0 < length last
      → base + length (flatten earlier) + length last < 2 ^ 63
      → Pending base
          (earlier ++ (last ∷ []))
          []
          (new_segment os (base + length (flatten earlier) + length last) l).1
        × ((new_segment os (base + length (flatten earlier) + length last) l).1.config ≡ l.config)
  unfolding new_segment
  new_segment-Pending base earlier last l h some small =
      let off = base + length (flatten earlier) + length last in
      let (s, e, (hs, hb, hc, exists, same, names)) =
        new_segment-fresh os off l.config l.dir h.fresh.exists_lem
          (h.fresh.no_store off (omega arith) small) (h.fresh.no_index off (omega arith) small)
          h.index_pos h.index_small small in
      let at : off ≡ base + length (flatten (earlier ++ (last ∷ []))) =
        omega (arith, ap length (flatten-end earlier last), length-append (flatten earlier) last) in
      rw (e, new_segment)
        (
          record {
            chain =
                Chain-end l.config base l.segments (earlier ++ (last ∷ [])) s [] h.chain hs
                  (hb ∙ at) hc;
            active_lem = refl;
            fresh =
                subst (λ n. IsFresh n (Segment.new_segment os off l.config l.dir).1) at
                  (fresh-after (base + length (flatten earlier)) off l.dir
                    (Segment.new_segment os off l.config l.dir).1 (omega arith) small h.fresh exists
                    same);
            index_small = h.index_small;
            index_pos = h.index_pos;
            store_pos = h.store_pos;
            filled = AllFilled-end earlier last h.filled some;
            listed =
                names
                ∙ ap (λ ns. ns ++ (store_name off ∷ index_name off ∷ [])) h.listed
                ∙ ap (λ b. names_of (starts base (earlier ++ (last ∷ []))) ++ names_of (b ∷ [])) at
                ∙ sym (names_of-append (starts base (earlier ++ (last ∷ []))) _)
                ∙ ap names_of (sym (starts-append base (earlier ++ (last ∷ [])) ([] ∷ [])));
          },
          refl,
        )
