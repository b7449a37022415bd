-- ===== src/Log/Loop.antt =====
-- The loop of `setup`: one segment after the other, on the files of a closed log.
use mathlib.Core.Path.{subst}
use smolkafka.Prelude.{
  ℕ, ◌+◌, ◌*◌, ◌^◌, ◌<◌, ◌≤◌, ◌≡◌, refl, ◌∙◌, ap, sym, true, false, List, [], ◌∷◌, ◌++◌, arith,
  length, append_assoc, append-nil, flatten, flatten-end, length-append,
}
use smolkafka.Exec.Returns.{Returns}
use smolkafka.Bytes.{Bytes}
use smolkafka.Platform.{Platform}
use smolkafka.Disk.{Dir}
use smolkafka.Disk.Listing.{
  file_names, has_name, names_of, put_name, put_name-has, has_name-names_of, AllAbove, Increasing,
}
use smolkafka.Names.{store_name, index_name, segments_differ}
use smolkafka.Segment
use smolkafka.Segment.{Segment, Config}
use smolkafka.Segment.Holds.{bytes_of, length-places}
use smolkafka.Segment.Files.{Spares, new_segment_lem}
use smolkafka.Log.{Log, Active, in_list, new_segment, new_segments}
use smolkafka.Log.Chain.{Chain, Chain-end}
use smolkafka.Log.Starts.{starts}
use smolkafka.Log.Close.{AllOnDisk, AllSpared, Spares-all}

-- The payloads fit segments that are so configured.
abbrev pub AllFit : Config → List (List Bytes) → Type 0
AllFit c [] = Unit
AllFit c (ps ∷ pss) = (12 * length ps ≤ c.max_index_bytes) × (bytes_of ps < 2 ^ 63) × AllFit c pss

pub Chain-AllFit :
    (c : Config) (base : ℕ) (ss : List Segment) (pss : List (List Bytes))
    → Chain c base ss pss
    → AllFit c pss
Chain-AllFit c base [] [] h = tt
Chain-AllFit c base [] (ps ∷ pss) h = absurd h
Chain-AllFit c base (s ∷ ss) [] h = absurd h
Chain-AllFit c base (s ∷ ss) (ps ∷ pss) (hs, hb, hc, rest) = (
  omega (
    arith,
    length-places 0 0 ps,
    hs.index_lem.fits,
    hs.index_lem.size_lem,
    ap (λ (d : Config). d.max_index_bytes) hc,
  ),
  hs.store_small,
  Chain-AllFit c (base + length ps) ss pss rest,
)

abbrev pub active_with : List (List Bytes) → Active → Active
active_with [] a = a
active_with (ps ∷ pss) a = in_list

-- What the loop of `setup` makes of `l`, if it opens the segments of `pss` behind those of `qss`.
pub record Opened (base at : ℕ) (qss pss : List (List Bytes)) (l l' : Log) : Type 0 where
  pub chain : Chain l.config base l'.segments (qss ++ pss)
  pub config_lem : l'.config ≡ l.config
  pub active_lem : l'.active ≡ active_with pss l.active
  pub exists_lem : l'.dir.exists ≡ true
  pub names_lem : file_names l'.dir.files ≡ file_names l.dir.files
  pub spared : AllSpared (starts at pss) l.dir l'.dir

pub AllOnDisk-spared :
    (b base : ℕ) (ps : List (List Bytes)) (d d' : Dir)
    → AllAbove b (starts base ps)
    → b < 2 ^ 63
    → Spares b d d'
    → d'.exists ≡ true
    → AllOnDisk base ps d
    → AllOnDisk base ps d'
AllOnDisk-spared b base [] d d' above small spares e h = tt
AllOnDisk-spared b base (ps ∷ pss) d d' (lt, base_small, above) small spares e (disk, h) =
    let (ss, ii, si, is) = segments_differ b base (omega arith) (omega arith) (omega arith) in
    (
      record {
        exists_lem = e;
        store_lem = spares (store_name base) ss is ∙ disk.store_lem;
        index_lem = spares (index_name base) si ii ∙ disk.index_lem;
      },
      AllOnDisk-spared b (base + length ps) pss d d' above small spares e h,
    )

-- There are no files behind the last segment.
pub not_listed_behind :
    (base n : ℕ) (earlier : List (List Bytes)) (last : List Bytes)
    → base + length (flatten earlier) < n
    → n < 2 ^ 63
    → (has_name (store_name n) (names_of (starts base (earlier ++ (last ∷ [])))) ≡ false)
      × (has_name (index_name n) (names_of (starts base (earlier ++ (last ∷ [])))) ≡ false)
not_listed_behind base n [] last lt small =
    let (ss, ii, si, is) = segments_differ base n (omega arith) (omega arith) (omega arith) in
    (ground arith, ground arith)
not_listed_behind base n (ps ∷ earlier) last lt small =
    let (ss, ii, si, is) = segments_differ base n (omega arith) (omega arith) (omega arith) in
    let (no_store, no_index) =
      not_listed_behind (base + length ps) n earlier last
        (omega (arith, length-append ps (flatten earlier))) small in
    (ground arith, ground arith)

module _ (os : Platform) where
  pub new_segments-Opened :
      (base at : ℕ) (bs : List ℕ) (qss pss : List (List Bytes)) (l : Log)
      → Chain l.config base l.segments qss
      → at ≡ base + length (flatten qss)
      → AllOnDisk at pss l.dir
      → Increasing (starts at pss)
      → AllFit l.config pss
      → 0 < l.config.max_index_bytes
      → l.config.max_index_bytes < 2 ^ 32
      → l.dir.exists ≡ true
      → file_names l.dir.files ≡ names_of (bs ++ starts at pss)
      → Returns (new_segments os (starts at pss) l) (λ _ l'. Opened base at qss pss l l')
  unfolding new_segments new_segment
  new_segments-Opened base at bs qss [] l h here disk inc fit pos small e names = (
    tt,
    refl,
    record {
      chain = subst (Chain l.config base l.segments) (sym (append-nil qss)) h;
      config_lem = refl;
      active_lem = refl;
      exists_lem = e;
      names_lem = refl;
      spared = λ n other. refl;
    },
  )
  new_segments-Opened base at bs qss (ps ∷ pss) l h here (disk, disks) (at_small, above, inc)
        (fits, bytes_small, fit) pos small e names =
      let rest = starts (at + length ps) pss in
      let (s, opened, (hs, sb, sc, exists, same, spares)) =
        new_segment_lem os at l.config ps l.dir disk fits pos small bytes_small at_small in
      let d1 = (Segment.new_segment os at l.config l.dir).1 in
      let l1 : Log = record l { dir = d1; segments = l.segments ++ (s ∷ []); active = in_list } in
      let kept : file_names d1.files ≡ file_names l.dir.files =
        same
        ∙ ap (put_name (index_name at)) names
        ∙ put_name-has (index_name at) (names_of (bs ++ (at ∷ rest)))
            (has_name-names_of at bs rest).1
        ∙ sym names in
      let (u, others, o) =
        new_segments-Opened base (at + length ps) (bs ++ (at ∷ [])) (qss ++ (ps ∷ [])) pss l1
          (Chain-end l.config base l.segments qss s ps h hs (sb ∙ here) sc)
          (omega (
            arith,
            here,
            ap (λ (p : List Bytes). length p) (flatten-end qss ps),
            length-append (flatten qss) ps,
          ))
          (AllOnDisk-spared at (at + length ps) pss l.dir d1 above at_small spares exists disks) inc
          fit pos small exists
          (kept ∙ names ∙ ap names_of (sym (append_assoc bs (at ∷ []) rest))) in
      rw (opened, new_segment)
        (
          u,
          others,
          record {
            chain =
                subst (Chain l.config base (new_segments os rest l1).1.segments)
                  (append_assoc qss (ps ∷ []) pss) o.chain;
            config_lem = o.config_lem;
            active_lem = o.active_lem ∙ still_active pss;
            exists_lem = o.exists_lem;
            names_lem = o.names_lem ∙ kept;
            spared = Spares-all at rest l.dir d1 (new_segments os rest l1).1.dir spares o.spared;
          },
        )
    where
      still_active : (pss : List (List Bytes)) → active_with pss in_list ≡ in_list
      still_active [] = refl
      still_active (qs ∷ qss) = refl
