-- ===== src/Cluster/Replicas.antt =====
-- The logs of the servers of a cluster, over the life of its processes: what Raft does to each of
-- them by `fsm.Apply`, and a server to its own by `Read`, `Close` and `NewLog`. Raft gives a machine
-- the committed commands in their order, and, as nothing tells it what the log holds already, from the
-- first one on again when the server starts without a snapshot.
pub mod Steps
pub mod Invariant
pub mod Prefixes
pub mod Replayed
use smolkafka.Prelude.{ℕ, ◌+◌, ◌==◌, if◌then◌else◌, List, [], ◌∷◌, ◌++◌, ◌≡◌, some, take, get_elem?}
use smolkafka.Bytes.{Bytes}
use smolkafka.Platform.{Platform}
use smolkafka.Log.{Log}
use smolkafka.Log.Contract.{Call, read, restart, perform}
use smolkafka.Raft.{fsm_apply}

-- A server: its log, how many commands Raft has applied since it started, and how many it had applied
-- when it stopped each time before, the last time first.
pub record Machine : Type 0 where
  pub log : Log
  pub applied : ℕ
  pub lives : List ℕ

-- A cluster: the commands that Raft has committed, and the servers by number.
pub record Machines : Type 0 where
  pub committed : List Bytes
  pub machine : ℕ → Machine

abbrev pub with_machine : ℕ → Machine → (ℕ → Machine) → ℕ → Machine
with_machine i m ms j = if i == j then m else ms j

-- All the commands that a server was given: those of its earlier lives, and those of this one.
abbrev pub replayed : List Bytes → List ℕ → List Bytes
replayed committed [] = []
replayed committed (k ∷ ks) = replayed committed ks ++ take k committed

abbrev pub commands_of : List Bytes → Machine → List Bytes
commands_of committed m = replayed committed m.lives ++ take m.applied committed

module _ (os : Platform) where
  -- The server is given a command.
  abbrev pub given : Bytes → Machine → Machine
  given b m = record m { log = (fsm_apply os b m.log).1; applied = m.applied + 1 }

  -- The server reads its log, for a client or for a server that copies it.
  abbrev pub reading : ℕ → Machine → Machine
  reading off m = record m { log = (perform os (read off) m.log).1 }

  -- The server stops, and starts on the same directory.
  abbrev pub restarting : Machine → Machine
  restarting m = record m {
    log = (perform os restart m.log).1;
    applied = 0;
    lives = m.applied ∷ m.lives;
  }

  pub data Step : Machines → Machines → Type 0 where
    commits : (s : Machines) (b : Bytes) → Step s (record s { committed = s.committed ++ (b ∷ []) })
    applies :
        (s : Machines) (i : ℕ) (b : Bytes)
        → get_elem? s.committed (s.machine i).applied ≡ some b
        → Step s (record s { machine = with_machine i (given b (s.machine i)) s.machine })
    reads :
        (s : Machines) (i off : ℕ)
        → Step s (record s { machine = with_machine i (reading off (s.machine i)) s.machine })
    restarts :
        (s : Machines) (i : ℕ)
        → Step s (record s { machine = with_machine i (restarting (s.machine i)) s.machine })

  pub data Reach (s : Machines) : Machines → Type 0 where
    here : Reach s s
    next : {t u : Machines} → Reach s t → Step t u → Reach s u
