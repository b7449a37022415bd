-- ===== src/Raft/Later.antt =====
-- The rounds of `Restore` behind the first one, which do without `Reset`.
use smolkafka.Prelude.{ℕ, ◌+◌, ◌^◌, ◌<◌, ◌≡◌, List, [], ◌∷◌, length}
use smolkafka.Exec.{ok}
use smolkafka.Exec.Returns.{Returns}
use smolkafka.Bytes.{Bytes}
use smolkafka.Platform.{Platform, Record}
use smolkafka.Segment.{Config}
use smolkafka.Log
use smolkafka.Log.{Log}
use smolkafka.Log.Holds.{Holds}
use smolkafka.Log.Suits.{Suits}

module _ (os : Platform) where
  -- The records are marshalled to `ps` from the offset `n` on, with room for each in a log that is so
  -- configured.
  abbrev pub AreRecords : Config → ℕ → List Record → List Bytes → Type 0
  AreRecords c n [] [] = Unit
  AreRecords c n (r ∷ rs) (p ∷ ps) =
      (os.marshal (record r { offset = n }) ≡ ok p)
      × (c.max_store_bytes + length p + 8 < 2 ^ 63)
      × (n + 1 < 2 ^ 63)
      × AreRecords c (n + 1) rs ps
  AreRecords c n _ _ = ⊥
