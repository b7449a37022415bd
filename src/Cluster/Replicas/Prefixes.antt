-- ===== src/Cluster/Replicas/Prefixes.antt =====
-- The servers that were never restarted have beginnings of one sequence of records.
use mathlib.Core.Path.{subst}
use smolkafka.Prelude.{ℕ, zero, suc, ◌+◌, ◌≤◌, ◌≡◌, sym, ap, List, [], ◌∷◌, ◌++◌, arith, take}
use smolkafka.Bytes.{Bytes}
use smolkafka.Platform.{Platform, Record}
use smolkafka.Segment.{Config}
use smolkafka.Log.Holds.{Holds}
use smolkafka.Log.Suits.{Suits, Suits-take}
use smolkafka.Raft.Agreement.{AreCommands}
use smolkafka.Cluster.Replicas.{Machines, replayed, commands_of, Reach}
use smolkafka.Cluster.Replicas.Steps.{IsNew}
use smolkafka.Cluster.Replicas.Invariant.{Reach-Holds}

module _ (os : Platform) where
  -- A beginning of commands, under a limit that is not above.
  AreCommands-take :
      (c d : Config) (k n : ℕ) (rs : List Record) (bs ps : List Bytes)
      → d.max_store_bytes ≤ c.max_store_bytes
      → AreCommands os c n rs bs ps
      → AreCommands os d n (take k rs) (take k bs) (take k ps)
  AreCommands-take c d zero n rs bs ps le h = tt
  AreCommands-take c d (suc k) n [] [] [] le h = tt
  AreCommands-take c d (suc k) n [] [] (p ∷ ps) le h = absurd h
  AreCommands-take c d (suc k) n [] (b ∷ bs) ps le h = absurd h
  AreCommands-take c d (suc k) n (r ∷ rs) [] ps le h = absurd h
  AreCommands-take c d (suc k) n (r ∷ rs) (b ∷ bs) [] le h = absurd h
  AreCommands-take c d (suc k) n (r ∷ rs) (b ∷ bs) (p ∷ ps) le (e, m, room, small, h) =
      (e, m, omega arith, small, AreCommands-take c d k (n + 1) rs bs ps le h)

  -- The servers' logs agree: in every state that a cluster can reach from one in which no log
  -- holds anything, the log of a server that was never restarted holds a beginning of one sequence
  -- of payloads, which is the same for all servers, as long as the number of the commands that it
  -- has applied, if the committed commands are those of records with room for each and the limits
  -- suit the payloads.
  pub Reach-Holds_prefix :
      (c : ℕ → Config) (d : Config) (base i : ℕ) (s t : Machines) (rs : List Record)
      (ps : List Bytes)
      → Suits (c i) ps
      → (c i).max_store_bytes ≤ d.max_store_bytes
      → ((j : ℕ) → IsNew (c j) base (s.machine j))
      → Reach os s t
      → AreCommands os d base rs t.committed ps
      → (t.machine i).lives ≡ []
      → Holds (t.machine i).log base (take (t.machine i).applied ps)
  Reach-Holds_prefix c d base i s t rs ps suits le new r are never =
      let n = (t.machine i).applied in
      let first_life : commands_of t.committed (t.machine i) ≡ take n t.committed =
        ap (λ ks. replayed t.committed ks ++ take n t.committed) never in
      Reach-Holds os c base i s t (take n rs) (take n ps) (Suits-take (c i) n ps suits) new r (
        subst (λ bs. AreCommands os (c i) base (take n rs) bs (take n ps)) (sym first_life)
          (AreCommands-take d (c i) n base rs t.committed ps le are))
