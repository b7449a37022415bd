-- ===== src/Cluster/Replicas/Invariant.antt =====
-- What the log of every server holds, in every state that a cluster can reach.
use mathlib.Core.Path.{subst}
use smolkafka.Prelude.{ℕ, inl, inr, ◌==◌, Bool-cases, ==_iff, List}
use smolkafka.Bytes.{Bytes}
use smolkafka.Platform.{Platform, Record}
use smolkafka.Segment.{Config}
use smolkafka.Log.Holds.{Holds}
use smolkafka.Log.Suits.{Suits}
use smolkafka.Raft.Agreement.{AreCommands}
use smolkafka.Cluster.Replicas.{
  Machine, Machines, with_machine, commands_of, given, reading, restarting, Step, Reach, commits,
  applies, reads, restarts, here, next,
}
use smolkafka.Cluster.Replicas.Steps.{
  IsNew, IsReplica, IsNew-IsReplica, commit-IsReplica, given-IsReplica, reading-IsReplica,
  restarting-IsReplica,
}

module _ (os : Platform) where
  with_machine-All :
      (P : ℕ → Machine → Type 0) (i : ℕ) (m : Machine) (ms : ℕ → Machine)
      → P i m
      → ((j : ℕ) → P j (ms j))
      → (j : ℕ) → P j (with_machine i m ms j)
  with_machine-All P i m ms new old j = elim (Bool-cases (i == j)) [
    | inl e ↦ rw e (subst (λ k. P k m) ((==_iff i j).0 e) new)
    | inr e ↦ rw e (old j)
  ]

  Step-IsReplica :
      (c : ℕ → Config) (base : ℕ) {s t : Machines}
      → Step os s t
      → ((i : ℕ) → IsReplica os (c i) base s.committed (s.machine i))
      → (i : ℕ) → IsReplica os (c i) base t.committed (t.machine i)
  Step-IsReplica c base (commits s b) h j =
      commit-IsReplica os (c j) base s.committed b (s.machine j) (h j)
  Step-IsReplica c base (applies s i b at) h j =
      with_machine-All (λ j. IsReplica os (c j) base s.committed) i (given os b (s.machine i))
        s.machine (given-IsReplica os (c i) base s.committed b (s.machine i) at (h i)) h j
  Step-IsReplica c base (reads s i off) h j =
      with_machine-All (λ j. IsReplica os (c j) base s.committed) i (reading os off (s.machine i))
        s.machine (reading-IsReplica os (c i) base off s.committed (s.machine i) (h i)) h j
  Step-IsReplica c base (restarts s i) h j =
      with_machine-All (λ j. IsReplica os (c j) base s.committed) i (restarting os (s.machine i))
        s.machine (restarting-IsReplica os (c i) base s.committed (s.machine i) (h i)) h j

  pub Reach-IsReplica :
      (c : ℕ → Config) (base : ℕ) {s t : Machines}
      → ((i : ℕ) → IsNew (c i) base (s.machine i))
      → Reach os s t
      → (i : ℕ) → IsReplica os (c i) base t.committed (t.machine i)
  Reach-IsReplica c base {s = s} new here i =
      IsNew-IsReplica os (c i) base s.committed (s.machine i) (new i)
  Reach-IsReplica c base new (next r st) i =
      Step-IsReplica c base st (Reach-IsReplica c base new r) i

  -- What a server's log holds, whatever happened: in every state that a cluster of any number of
  -- servers can reach from one in which no log holds anything, by commands committed, applied in
  -- their order, logs read, and servers stopped and started again without a snapshot, the log of a
  -- server holds the payloads of all the commands that it was given, in its earlier lives and in
  -- this one, if they are commands of records with room for each and its limits suit the payloads.
  pub Reach-Holds :
      (c : ℕ → Config) (base i : ℕ) (s t : Machines) (rs : List Record) (ps : List Bytes)
      → Suits (c i) ps
      → ((j : ℕ) → IsNew (c j) base (s.machine j))
      → Reach os s t
      → AreCommands os (c i) base rs (commands_of t.committed (t.machine i)) ps
      → Holds (t.machine i).log base ps
  Reach-Holds c base i s t rs ps suits new r are =
      ((Reach-IsReplica c base new r i).holds rs ps suits are).holds
