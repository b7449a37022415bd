-- ===== src/Log/Restart.antt =====
-- A log that is closed and opened again.
use mathlib.Core.Path.{subst}
use smolkafka.Prelude.{
  ℕ, ◌+◌, ◌≡◌, refl, ◌∙◌, ap, sym, true, List, [], ◌∷◌, ◌++◌, arith, length, flatten,
}
use smolkafka.Exec.Returns.{Returns}
use smolkafka.Bytes.{Bytes}
use smolkafka.Platform.{Platform}
use smolkafka.Disk.{Dir}
use smolkafka.Disk.Listing.{file_names, names_of}
use smolkafka.Names.{store_name, index_name}
use smolkafka.Segment.{Config}
use smolkafka.Log.{Log, Active, in_list, unset, close, setup, with_defaults, new_log}
use smolkafka.Log.Chain.{Chain}
use smolkafka.Log.Starts.{starts, Chain-Increasing}
use smolkafka.Log.Holds.{IsFresh, Holds}
use smolkafka.Log.Close.{AllSpared, log_close_lem}
use smolkafka.Log.Reopen.{with_defaults-same, setup-Opened}
use smolkafka.Log.Loop.{AllFit, Chain-AllFit, active_with, Opened, not_listed_behind}

active_with-end :
    (pss : List (List Bytes)) (ps : List Bytes) (a : Active)
    → active_with (pss ++ (ps ∷ [])) a ≡ in_list
active_with-end [] ps a = refl
active_with-end (qs ∷ pss) ps a = refl

IsFresh-spared :
    (base : ℕ) (earlier : List (List Bytes)) (last : List Bytes) (d d' : Dir)
    → d'.exists ≡ true
    → AllSpared (starts base (earlier ++ (last ∷ []))) d d'
    → IsFresh (base + length (flatten earlier)) d
    → IsFresh (base + length (flatten earlier)) d'
IsFresh-spared base earlier last d d' e spared h = record {
  exists_lem = e;
  no_store = λ n after small.
      spared (store_name n) (not_listed_behind base n earlier last after small).0
      ∙ h.no_store n after small;
  no_index = λ n after small.
      spared (index_name n) (not_listed_behind base n earlier last after small).1
      ∙ h.no_index n after small;
}

-- What a log has when it was opened on the files of a log that holds `fs`.
Holds-Opened :
    (l0 l l' : Log) (base : ℕ) (fs : List Bytes)
    → (h : Holds l0 base fs) → l.config ≡ l0.config
    → IsFresh (base + length (flatten h.earlier)) l.dir
    → file_names l.dir.files ≡ names_of (starts base (h.earlier ++ (h.last ∷ [])))
    → Opened base base [] (h.earlier ++ (h.last ∷ [])) l l'
    → Holds l' base fs
Holds-Opened l0 l l' base fs h same fresh names o =
    let config : l'.config ≡ l0.config = o.config_lem ∙ same in
    record {
      earlier = h.earlier;
      last = h.last;
      all_lem = h.all_lem;
      chain =
          subst (λ c. Chain c base l'.segments (h.earlier ++ (h.last ∷ []))) (sym o.config_lem)
            o.chain;
      active_lem = o.active_lem ∙ active_with-end h.earlier h.last l.active;
      fresh = IsFresh-spared base h.earlier h.last l.dir l'.dir o.exists_lem o.spared fresh;
      store_room = omega (arith, h.store_room, ap (λ (c : Config). c.max_store_bytes) config);
      index_room = omega (arith, h.index_room, ap (λ (c : Config). c.max_index_bytes) config);
      index_small = omega (arith, h.index_small, ap (λ (c : Config). c.max_index_bytes) config);
      filled = h.filled;
      listed = o.names_lem ∙ names;
    }

module _ (os : Platform) where
  -- `Close` of a log that holds payloads succeeds, and `NewLog` on its directory with its
  -- configuration then succeeds too: it finds the segments by the names of their files, and the
  -- log holds the same payloads from the same offset on.
  pub close-new_log :
      (l : Log) (base : ℕ) (fs : List Bytes)
      → Holds l base fs
      → Returns (close os l) (λ _ l'.
        Returns
          (new_log os l'.dir l'.config)
          (λ _ l''. Holds l'' base fs × (l''.config ≡ l.config)))
  unfolding new_log
  close-new_log l base fs h =
      let pss = h.earlier ++ (h.last ∷ []) in
      let (u, closed, (disks, e, names, spared, config)) = log_close_lem os l base fs h in
      let l' = (close os l).1 in
      let kept : with_defaults l'.config ≡ l.config =
        ap with_defaults config
        ∙ with_defaults-same os l.config (omega (arith, h.store_room))
            (omega (arith, h.index_room)) in
      let l0 : Log = record {
        dir = l'.dir;
        config = with_defaults l'.config;
        active = unset;
        segments = [];
      } in
      let (v, opened, o) =
        setup-Opened os base h.earlier h.last l0 refl disks
          (Chain-Increasing l.config base l.segments h.earlier h.last h.chain h.filled)
          (subst (λ c. AllFit c pss) (sym kept) (Chain-AllFit l.config base l.segments pss h.chain))
          (omega (arith, h.index_room, ap (λ (c : Config). c.max_index_bytes) kept))
          (omega (arith, h.index_small, ap (λ (c : Config). c.max_index_bytes) kept)) e names in
      (
        u,
        closed,
        (
          v,
          opened,
          (
            Holds-Opened l l0 (setup os l0).1 base fs h kept
                (IsFresh-spared base h.earlier h.last l.dir l'.dir e spared h.fresh) names o,
            o.config_lem ∙ kept,
          ),
        ),
      )
