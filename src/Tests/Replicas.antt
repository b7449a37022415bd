-- ===== src/Tests/Replicas.antt =====
-- The servers of a cluster, over the life of their processes, at concrete inputs.
use smolkafka.Prelude.{inl, ℕ, ◌≡◌, refl, List, [], ◌∷◌, ◌++◌, arith, take}
use smolkafka.Bytes.{Bytes}
use smolkafka.Log.Holds.{Holds}
use smolkafka.Log.Contract.{restart, perform}
use smolkafka.Raft.Agreement.{responses, apply_all}
use smolkafka.Cluster.Replicas.{
  Machine, Machines, Reach, commits, applies, reads, restarts, given, reading, restarting,
  with_machine, here, next,
}
use smolkafka.Cluster.Replicas.Steps.{IsNew}
use smolkafka.Cluster.Replicas.Invariant.{Reach-Holds}
use smolkafka.Cluster.Replicas.Prefixes.{Reach-Holds_prefix}
use smolkafka.Cluster.Replicas.Replayed.{apply_all-restart}
use smolkafka.Tests.{toy, hello}
use smolkafka.Tests.Logs.{fresh, fresh-Holds, aligned, store_limit}
use smolkafka.Tests.RaftLog.{command, command_lem, commands, three, fits}

-- Servers with the limits of two entries, before anything is committed.
abbrev unused : Machine
unused = record { log = fresh; applied = 0; lives = [] }

abbrev start : Machines
start = record { committed = []; machine = λ i. unused }

unused-IsNew : (i : ℕ) → IsNew fresh.config 5 (start.machine i)
unused-IsNew i = record {
  empty = fresh-Holds;
  config_lem = refl;
  none_applied = refl;
  no_lives = refl;
}

-- Two commands are committed. Server 0 applies both, and starts again and applies the first; server 1
-- has applied one when its log is read.
abbrev committed : Machines
committed = record start { committed = command ∷ command ∷ [] }

abbrev applied : Machines
applied = record committed {
  machine = with_machine 1 (reading toy 5 (given toy command unused)) (
      with_machine 1 (given toy command unused) (
        with_machine 0 (given toy command (given toy command unused))
          (with_machine 0 (given toy command unused) start.machine)));
}

abbrev restarted : Machines
restarted = record applied {
  machine =
      with_machine 0 (restarting toy (given toy command (given toy command unused)))
        applied.machine;
}

abbrev replaying : Machines
replaying = record applied {
  machine =
      with_machine 0
        (given toy command (restarting toy (given toy command (given toy command unused))))
        restarted.machine;
}

committed-Reach : Reach toy start committed
committed-Reach =
    next (next here (commits start command))
      (commits (record start { committed = command ∷ [] }) command)

applied-Reach : Reach toy start applied
applied-Reach =
    next
      (next (next (next committed-Reach (applies _ 0 command refl)) (applies _ 0 command refl))
        (applies _ 1 command refl))
      (reads _ 1 5)

replaying-Reach : Reach toy start replaying
replaying-Reach = next (next applied-Reach (restarts _ 0)) (applies _ 0 command refl)

Reach-Holds_example : Holds (replaying.machine 0).log 5 three
Reach-Holds_example =
    Reach-Holds toy (λ i. fresh.config) 5 0 start replaying (hello ∷ hello ∷ hello ∷ []) three
      (inl aligned) unused-IsNew replaying-Reach (fits fresh.config store_limit)

-- A server that has applied one of the two commands.
Reach-Holds_prefix_example : Holds (replaying.machine 1).log 5 (take 1 (take 2 three))
Reach-Holds_prefix_example =
    Reach-Holds_prefix toy (λ i. fresh.config) fresh.config 5 1 start replaying (hello ∷ hello ∷ [])
      (take 2 three) (inl aligned) (omega arith) unused-IsNew replaying-Reach
      (
        command_lem,
        refl,
        omega (arith, store_limit),
        omega arith,
        (command_lem, refl, omega (arith, store_limit), omega arith, tt),
      )
      refl

-- The same three records again, at the offsets behind.
abbrev again : List Bytes
again =
    (8 ∷ 3 ∷ 1 ∷ 104 ∷ 105 ∷ []) ∷ (9 ∷ 3 ∷ 1 ∷ 104 ∷ 105 ∷ []) ∷ (10 ∷ 3 ∷ 1 ∷ 104 ∷ 105 ∷ []) ∷ []

apply_all-restart_example :
    let l = (perform toy restart (apply_all toy commands fresh).1).1 in
    ((apply_all toy commands l).0 ≡ responses 8 commands)
    × Holds (apply_all toy commands l).1 5 (three ++ again)
apply_all-restart_example =
    apply_all-restart toy fresh 5 (hello ∷ hello ∷ hello ∷ []) commands three again fresh-Holds
      (inl aligned) (fits fresh.config store_limit)
      (
        command_lem,
        refl,
        omega (arith, store_limit),
        omega arith,
        (
          command_lem,
          refl,
          omega (arith, store_limit),
          omega arith,
          (command_lem, refl, omega (arith, store_limit), omega arith, tt),
        ),
      )
