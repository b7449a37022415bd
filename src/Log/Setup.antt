-- ===== src/Log/Setup.antt =====
-- `NewLog` on an empty directory.
use smolkafka.Prelude.{◌^◌, ◌<◌, ◌≡◌, refl, ap, true, [], arith, length}
use smolkafka.Exec.Returns.{Returns}
use smolkafka.Bytes.{Bytes}
use smolkafka.Platform.{Platform}
use smolkafka.Store.Frames.{frames-nil}
use smolkafka.Disk.{Dir, lookup}
use smolkafka.Names.{store_name, index_name, segments_differ}
use smolkafka.Segment.{Config}
use smolkafka.Segment.Reopen.{new_segment-fresh}
use smolkafka.Log.{
  read_dir, sort_names, every_other, sort, new_segment, new_segments, bootstrap_of, bootstrap,
  setup, with_defaults, new_log,
}
use smolkafka.Log.Holds.{Holds}

abbrev pub empty_dir : Dir
empty_dir = record { exists = true; files = [] }

defaults :
    (c : Config)
    → c.max_index_bytes < 2 ^ 32
    → (0 < (with_defaults c).max_store_bytes)
      × (0 < (with_defaults c).max_index_bytes)
      × ((with_defaults c).max_index_bytes < 2 ^ 32)
unfolding with_defaults
defaults c small = ground arith

module _ (os : Platform) where
  -- `NewLog` on an empty directory succeeds, if the index limit is below 2 ^ 32 and the initial
  -- offset below 2 ^ 63: the log holds nothing yet, from the configured offset on, and a limit of
  -- 0 stands for 1024 bytes.
  pub new_log_lem :
      (c : Config)
      → c.max_index_bytes < 2 ^ 32
      → c.initial_offset < 2 ^ 63
      → Returns
          (new_log os empty_dir c)
          (λ _ l. Holds l c.initial_offset [] × (l.config ≡ with_defaults c))
  unfolding new_segment with_defaults new_log setup read_dir new_segments bootstrap bootstrap_of
      every_other sort sort_names lookup
  new_log_lem c small base_small =
      let d = with_defaults c in
      let (s, made, (hs, hb, hc, exists, same, names)) =
        new_segment-fresh os c.initial_offset d empty_dir refl refl refl (defaults c small).1
          (defaults c small).2 base_small in
      rw (made, new_segment)
        (
          tt,
          refl,
          (
            record {
              earlier = [];
              last = [];
              all_lem = refl;
              chain = (hs, hb, hc, tt);
              active_lem = refl;
              fresh = record {
                exists_lem = exists;
                no_store = λ n after n_small.
                    let (ss, _, _, is) =
                      segments_differ c.initial_offset n (omega arith) (omega arith)
                        (omega arith) in
                    same (store_name n) ss is;
                no_index = λ n after n_small.
                    let (_, ii, si, _) =
                      segments_differ c.initial_offset n (omega arith) (omega arith)
                        (omega arith) in
                    same (index_name n) si ii;
              };
              store_room =
                  omega (arith, ap (λ (b : Bytes). length b) frames-nil, (defaults c small).0);
              index_room = (defaults c small).1;
              index_small = (defaults c small).2;
              filled = tt;
              listed = names;
            },
            refl,
          ),
        )
