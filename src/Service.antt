-- ===== src/Service.antt =====
-- The distributed log as the `CommitLog` of the gRPC service, which `setupServer` of
-- internal/agent/agent.go makes it. Raft is a parameter, and so is where its state has the server's log.
pub mod Written
pub mod Followed
use smolkafka.Prelude.{ℕ, Option, none, some}
use smolkafka.Exec.{Result, ok, err, Exec, lift, ◌>>=◌, ◌>>◌}
use smolkafka.Platform.{Platform, Record}
use smolkafka.Log
use smolkafka.Log.{Log}
use smolkafka.Raft.{command_of}
use smolkafka.Cluster
use smolkafka.Cluster.{Raft, offset_of}
use smolkafka.Server.{CommitLog}

-- Where the log of the server's machine stands.
pub record Machine (S : Type 0) : Type 0 where
  pub get : S → Log
  pub put : S → Log → S

module _ {S : Type 0} (raft : Raft S) (os : Platform) (machine : Machine S) where
  -- `DistributedLog.Append` of the record of a request, which may be nil.
  append_option : Option Record → Exec S ℕ
  append_option (some r) = Cluster.append raft os r
  append_option none = do
    b ← lift (command_of os none)
    reply ← raft.apply b
    lift (offset_of reply)

  -- `Log.Read` of the server's own log.
  read_own : ℕ → Exec S Record
  read_own off s = let (r, l) = Log.read os off (machine.get s) in (r, machine.put s l)

  pub commit_log : CommitLog S
  commit_log = record { append = append_option; read = Cluster.read raft read_own }
