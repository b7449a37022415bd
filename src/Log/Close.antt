-- ===== src/Log/Close.antt =====
-- `Close` of a log: every segment's files hold its payloads.
use mathlib.Core.Path.{subst}
use smolkafka.Prelude.{
  ℕ, ◌+◌, ◌^◌, ◌<◌, ◌≡◌, refl, ◌∙◌, ap, true, false, List, [], ◌∷◌, ◌++◌, arith, length,
  append_assoc,
}
use smolkafka.Exec.Returns.{Returns}
use smolkafka.Bytes.{Bytes}
use smolkafka.Platform.{Platform}
use smolkafka.Disk.{Name, Dir, lookup}
use smolkafka.Disk.Listing.{
  file_names, has_name, names_of, not_listed, AllAbove, Increasing, names_closed,
  names_closed-names_of,
}
use smolkafka.Names.{store_name, index_name}
use smolkafka.Segment
use smolkafka.Segment.{Segment, Config}
use smolkafka.Segment.Files.{OnDisk, Spares, close_lem}
use smolkafka.Log.{Log, close_all, close}
use smolkafka.Log.Chain.{Chain}
use smolkafka.Log.Starts.{starts, Chain-Increasing}
use smolkafka.Log.Holds.{Holds}

-- The files of segments with these payloads, the first at `base`.
abbrev pub AllOnDisk : ℕ → List (List Bytes) → Dir → Type 0
AllOnDisk base [] d = Unit
AllOnDisk base (ps ∷ pss) d = OnDisk base ps d × AllOnDisk (base + length ps) pss d

-- Files of other segments than these are as they were.
abbrev pub AllSpared : List ℕ → Dir → Dir → Type 0
AllSpared bs d d' =
    (n : Name) → has_name n (names_of bs) ≡ false → lookup n d'.files ≡ lookup n d.files

abbrev names_closed_all : List ℕ → List Name → List Name
names_closed_all [] ns = ns
names_closed_all (b ∷ bs) ns = names_closed_all bs (names_closed b ns)

names_closed_all-listed :
    (bs cs : List ℕ) → names_closed_all cs (names_of (bs ++ cs)) ≡ names_of (bs ++ cs)
names_closed_all-listed bs [] = refl
names_closed_all-listed bs (c ∷ cs) =
    ap (names_closed_all cs) (names_closed-names_of c bs cs)
    ∙ subst (λ xs. names_closed_all cs (names_of xs) ≡ names_of xs) (append_assoc bs (c ∷ []) cs)
        (names_closed_all-listed (bs ++ (c ∷ [])) cs)

-- The files of a segment that begins below those that were changed.
pub OnDisk-spared :
    (base : ℕ) (ps : List Bytes) (bs : List ℕ) (d d' : Dir)
    → base < 2 ^ 63
    → AllAbove base bs
    → OnDisk base ps d
    → d'.exists ≡ true
    → AllSpared bs d d'
    → OnDisk base ps d'
OnDisk-spared base ps bs d d' small above h e spared =
    let (no_store, no_index) = not_listed base bs small above in
    record {
      exists_lem = e;
      store_lem = spared (store_name base) no_store ∙ h.store_lem;
      index_lem = spared (index_name base) no_index ∙ h.index_lem;
    }

pub Spares-all :
    (base : ℕ) (bs : List ℕ) (d d1 d' : Dir)
    → Spares base d d1
    → AllSpared bs d1 d'
    → AllSpared (base ∷ bs) d d'
Spares-all base bs d d1 d' spares spared n other =
    spared n (ground arith) ∙ spares n (ground arith) (ground arith)

module _ (os : Platform) where
  close_all_lem :
      (c : Config) (base : ℕ) (ss : List Segment) (pss : List (List Bytes)) (d : Dir)
      → Chain c base ss pss
      → d.exists ≡ true
      → Increasing (starts base pss)
      → Returns (close_all os (ss, d)) (λ _ (ss', d').
        AllOnDisk base pss d'
        × (d'.exists ≡ true)
        × (file_names d'.files ≡ names_closed_all (starts base pss) (file_names d.files))
        × AllSpared (starts base pss) d d')
  unfolding close_all
  close_all_lem c base [] [] d h e inc = (tt, refl, (tt, e, refl, λ n other. refl))
  close_all_lem c base [] (ps ∷ pss) d h e inc = absurd h
  close_all_lem c base (s ∷ ss) [] d h e inc = absurd h
  close_all_lem c base (s ∷ ss) (ps ∷ pss) d (hs, hb, hc, rest) e (small, above, inc) =
      let (_, closed, (disk, same, spares, names)) = close_lem os s ps d hs e in
      let d1 = (Segment.close os (s, d)).1.1 in
      let disk1 = subst (λ b. OnDisk b ps d1) hb disk in
      let spares1 = subst (λ b. Spares b d d1) hb spares in
      let (_, others, (disks, e', names', spared)) =
        close_all_lem c (base + length ps) ss pss d1 rest disk.exists_lem inc in
      let d2 = (close_all os (ss, d1)).1.1 in
      rw (closed, others, close_all)
        (
          tt,
          refl,
          (
            (
              OnDisk-spared base ps (starts (base + length ps) pss) d1 d2 small above disk1 e'
                  spared,
              disks,
            ),
            e',
            names'
                ∙ ap (names_closed_all (starts (base + length ps) pss))
                    (names ∙ ap (λ b. names_closed b (file_names d.files)) hb),
            Spares-all base (starts (base + length ps) pss) d d1 d2 spares1 spared,
          ),
        )

  -- `Close` of a log that holds payloads writes the files of all its segments, and no others.
  pub log_close_lem :
      (l : Log) (base : ℕ) (fs : List Bytes) (h : Holds l base fs)
      → Returns (close os l) (λ _ l'.
        AllOnDisk base (h.earlier ++ (h.last ∷ [])) l'.dir
        × (l'.dir.exists ≡ true)
        × (file_names l'.dir.files ≡ names_of (starts base (h.earlier ++ (h.last ∷ []))))
        × AllSpared (starts base (h.earlier ++ (h.last ∷ []))) l.dir l'.dir
        × (l'.config ≡ l.config))
  unfolding close
  log_close_lem l base fs h =
      let pss = h.earlier ++ (h.last ∷ []) in
      let (u, closed, (disks, e, names, spared)) =
        close_all_lem l.config base l.segments pss l.dir h.chain h.fresh.exists_lem
          (Chain-Increasing l.config base l.segments h.earlier h.last h.chain h.filled) in
      (
        u,
        closed,
        (
          disks,
          e,
          names
              ∙ ap (names_closed_all (starts base pss)) h.listed
              ∙ names_closed_all-listed [] (starts base pss),
          spared,
          refl,
        ),
      )
