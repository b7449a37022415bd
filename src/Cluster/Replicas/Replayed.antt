-- ===== src/Cluster/Replicas/Replayed.antt =====
-- A server that is restarted has its records once more.
use smolkafka.Prelude.{ℕ, ◌+◌, ◌≡◌, refl, List, [], ◌∷◌, ◌++◌, arith, length}
use smolkafka.Bytes.{Bytes}
use smolkafka.Platform.{Platform, Record}
use smolkafka.Segment.{Config}
use smolkafka.Log.{Log}
use smolkafka.Log.Holds.{Holds}
use smolkafka.Log.Suits.{Suits, Suits-left}
use smolkafka.Log.Contract.{restart, perform}
use smolkafka.Raft.Agreement.{AreCommands, responses, apply_all, apply_all-Holds}
use smolkafka.Cluster.Replicas.Steps.{restarting-Has}

module _ (os : Platform) where
  length-AreCommands :
      (c : Config) (n : ℕ) (rs : List Record) (bs ps : List Bytes)
      → AreCommands os c n rs bs ps
      → length ps ≡ length bs
  length-AreCommands c n [] [] [] h = refl
  length-AreCommands c n [] [] (p ∷ ps) h = absurd h
  length-AreCommands c n [] (b ∷ bs) ps h = absurd h
  length-AreCommands c n (r ∷ rs) [] ps h = absurd h
  length-AreCommands c n (r ∷ rs) (b ∷ bs) [] h = absurd h
  length-AreCommands c n (r ∷ rs) (b ∷ bs) (p ∷ ps) (e, m, room, small, h) =
      omega (arith, length-AreCommands c (n + 1) rs bs ps h)

  -- A server that is restarted has its records twice: if a machine whose log held nothing has
  -- applied commands of records, is stopped and opened again on its directory, and is given the
  -- same commands again, it replies with the offsets behind those of before, and its log holds the
  -- payloads of the first time and then those of the second, if there is room for each and the
  -- limits suit them all.
  pub apply_all-restart :
      (l : Log) (base : ℕ) (rs : List Record) (bs ps qs : List Bytes)
      → Holds l base []
      → Suits l.config (ps ++ qs)
      → AreCommands os l.config base rs bs ps
      → AreCommands os l.config (base + length bs) rs bs qs
      → let again = (perform os restart (apply_all os bs l).1).1 in
        ((apply_all os bs again).0 ≡ responses (base + length bs) bs)
        × Holds (apply_all os bs again).1 base (ps ++ qs)
  apply_all-restart l base rs bs ps qs h suits first second =
      let c = l.config in
      let l1 = (apply_all os bs l).1 in
      let (_, once, same) =
        apply_all-Holds os c base rs bs ps l base [] h refl (Suits-left c ps qs suits) (omega arith)
          first in
      let has =
        restarting-Has os c (record { first = base; payloads = ps }) l1
          (record { holds = once; config_lem = same }) in
      let here : base + length bs ≡ base + length ps =
        omega (arith, length-AreCommands c base rs bs ps first) in
      let (replies, twice, _) =
        apply_all-Holds os c (base + length bs) rs bs qs (perform os restart l1).1 base ps has.holds
          has.config_lem suits here second in
      (replies, twice)
