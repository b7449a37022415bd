-- ===== src/Log/Reopen.antt =====
-- `NewLog` on the directory of a log that was closed.
use mathlib.Core.Path.{subst}
use smolkafka.Prelude.{ℕ, ◌^◌, ◌<◌, ◌≡◌, refl, ◌∙◌, ap, sym, true, List, [], ◌∷◌, ◌++◌, arith, map}
use smolkafka.Exec.{Result, ok, Exec, ◌>>=◌, ◌>>◌}
use smolkafka.Exec.Returns.{Returns, Returns-bind}
use smolkafka.Bytes.{Bytes}
use smolkafka.Platform.{Platform}
use smolkafka.Disk.{Name}
use smolkafka.Disk.Listing.{file_names, names_of, Increasing}
use smolkafka.Names.{parse_base}
use smolkafka.Segment.{Segment, Config}
use smolkafka.Log.{
  Log, read_dir, sort_names, sort, every_other, new_segments, bootstrap_of, bootstrap, setup,
  with_defaults,
}
use smolkafka.Log.Chain.{Chain}
use smolkafka.Log.Starts.{starts}
use smolkafka.Log.Close.{AllOnDisk}
use smolkafka.Log.Sorting.{every_other-sort}
use smolkafka.Log.Loop.{AllFit, Opened, new_segments-Opened}

module _ (os : Platform) where
  bootstrap-some :
      (c : Config) (base : ℕ) (earlier : List (List Bytes)) (last : List Bytes) (l : Log)
      → Chain c base l.segments (earlier ++ (last ∷ []))
      → bootstrap os l ≡ (ok tt, l)
  unfolding bootstrap bootstrap_of
  bootstrap-some c base earlier last l h = some_segment l.segments earlier h
    where
      some_segment :
          (ss : List Segment) (pss : List (List Bytes))
          → Chain c base ss (pss ++ (last ∷ []))
          → bootstrap_of os ss l ≡ (ok tt, l)
      some_segment [] [] h = absurd h
      some_segment [] (ps ∷ pss) h = absurd h
      some_segment (s ∷ ss) pss h = refl

  -- The limits of a log that holds anything stay as they are.
  pub with_defaults-same :
      (c : Config) → 0 < c.max_store_bytes → 0 < c.max_index_bytes → with_defaults c ≡ c
  unfolding with_defaults
  with_defaults-same c store index = ground arith

  -- `setup` on the files of the segments of a log.
  pub setup-Opened :
      (base : ℕ) (earlier : List (List Bytes)) (last : List Bytes) (l : Log)
      → l.segments ≡ []
      → AllOnDisk base (earlier ++ (last ∷ [])) l.dir
      → Increasing (starts base (earlier ++ (last ∷ [])))
      → AllFit l.config (earlier ++ (last ∷ []))
      → 0 < l.config.max_index_bytes
      → l.config.max_index_bytes < 2 ^ 32
      → l.dir.exists ≡ true
      → file_names l.dir.files ≡ names_of (starts base (earlier ++ (last ∷ [])))
      → Returns (setup os l) (λ _ l'. Opened base base [] (earlier ++ (last ∷ [])) l l')
  unfolding setup read_dir
  setup-Opened base earlier last l none_yet disks inc fit pos small e names =
      let pss = earlier ++ (last ∷ []) in
      let offsets : every_other (sort (map parse_base (sort_names (file_names l.dir.files))))
          ≡ starts base pss =
        ap (λ ns. every_other (sort (map parse_base (sort_names ns)))) names
        ∙ every_other-sort (starts base pss) inc in
      let loop =
        new_segments-Opened os base base [] [] pss l
          (subst (λ ss. Chain l.config base ss []) (sym none_yet) tt) (omega arith) disks inc fit
          pos small e names in
      Returns-bind (λ k. (read_dir k.dir, k)) open_all l
        (λ ns k. (every_other (sort (map parse_base ns)) ≡ starts base pss) × (k ≡ l))
        (λ _ l'. Opened base base [] pss l l')
        (sort_names (file_names l.dir.files), read, (offsets, refl))
        (λ ns k (bs, same).
          subst (λ j. Returns (open_all ns j) (λ _ l'. Opened base base [] pss l l')) (sym same)
            (subst
              (λ os_.
                Returns ((new_segments os os_ >>= λ _. bootstrap os) l)
                  (λ _ l'. Opened base base [] pss l l'))
              (sym bs)
              (Returns-bind (new_segments os (starts base pss)) (λ _. bootstrap os) l
                (λ _ l'. Opened base base [] pss l l') (λ _ l'. Opened base base [] pss l l') loop
                (λ _ l' o.
                  let start = bootstrap-some l.config base earlier last l' o.chain in
                  (
                    tt,
                    ap (λ (x : Result (Unit {0}) × Log). x.0) start,
                    subst (λ j. Opened base base [] pss l j)
                        (sym (ap (λ (x : Result (Unit {0}) × Log). x.1) start)) o,
                  )))))
    where
      open_all : List Name → Exec Log Unit
      open_all ns = do new_segments os (every_other (sort (map parse_base ns))); bootstrap os

      read : read_dir l.dir ≡ ok (sort_names (file_names l.dir.files))
      read = ground arith
