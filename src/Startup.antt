-- ===== src/Startup.antt =====
-- `NewDistributedLog` and `WaitForLeader` of internal/log/distributed.go: how the server's own log and
-- Raft are set up. What Raft's packages do is a parameter, over a state in which the directories stand.
pub mod Waiting
pub mod Bootstrap
use smolkafka.Prelude.{
  ℕ, Bool, true, false, ◌*◌, ◌&&◌, Option, none, some, List, [], ◌∷◌, ◌==◌, if◌then◌else◌,
}
use smolkafka.Exec.{Result, ok, err, timed_out, Exec, pure, ◌>>=◌, ◌>>◌}
use smolkafka.Disk.{Name, Dir}
use smolkafka.Platform.{Platform}
use smolkafka.Log
use smolkafka.Log.{Log}
use smolkafka.Config.{is_set}
use smolkafka.Segment
use smolkafka.Cluster.{Raft, Server}

-- `Config` of internal/log/config.go; the times are nanoseconds. The first group stands in
-- `raft.Config` in the source, in which a time of 0 is one that was not set.
pub record Timeouts : Type 0 where
  pub heartbeat : ℕ
  pub election : ℕ
  pub leader_lease : ℕ
  pub commit : ℕ

pub record Config (L : Type 0) : Type 0 where
  pub local_id : Name
  pub timeouts : Timeouts
  pub bind_addr : Name
  pub stream_layer : Option L
  pub bootstrap : Bool
  pub segment : Segment.Config

-- What `setupLog` and `setupRaft` call: `filepath.Join`, `os.MkdirAll`, the constructors of the packages
-- raft and raftboltdb, and what `raft.DefaultConfig` sets. A store and Raft itself are named by what the
-- constructors give, and so is a log that is made for a directory and kept from then on.
pub record Library (S H L : Type 0) : Type 0 where
  pub join : List Name → Name
  pub mkdir_all : Name → Exec S Unit
  pub platform : Platform
  pub dir_of : Name → S → Dir
  pub keep : Name → Log → S → H × S
  pub new_bolt_store : Name → Exec S H
  pub new_file_snapshot_store : Name → ℕ → Exec S H
  pub new_network_transport : Option L → ℕ → ℕ → H
  pub default_timeouts : Timeouts
  -- The configuration of the server, the machine's log, and the three stores and the transport.
  pub new_raft : Name → Timeouts → H → H → H → H → H → Exec S H
  pub has_existing_state : H → H → H → Exec S Bool
  pub bootstrap_cluster : H → List Server → Exec S Unit

-- Names of directories.
abbrev log_name : Name
log_name = b'l' ∷ b'o' ∷ b'g' ∷ []

abbrev raft_name : Name
raft_name = b'r' ∷ b'a' ∷ b'f' ∷ b't' ∷ []

abbrev stable_name : Name
stable_name = b's' ∷ b't' ∷ b'a' ∷ b'b' ∷ b'l' ∷ b'e' ∷ []

-- `10 * time.Second`
abbrev ten_seconds : ℕ
ten_seconds = 10 * 1000000000

-- A time that is set takes the place of the default.
abbrev or_default : ℕ → ℕ → ℕ
or_default default t = if t == 0 then default else t

pub timeouts_of : Timeouts → Timeouts → Timeouts
timeouts_of default t = record {
  heartbeat = or_default default.heartbeat t.heartbeat;
  election = or_default default.election t.election;
  leader_lease = or_default default.leader_lease t.leader_lease;
  commit = or_default default.commit t.commit;
}

-- What `NewDistributedLog` gives back.
pub record DistributedLog (H : Type 0) : Type 0 where
  pub log : H
  pub raft : H

-- This server, as the only one of a new cluster.
unfoldable pub self_server : {L : Type 0} → Config L → Server
self_server config = record { id = config.local_id; address = config.bind_addr }

module _ {S H L : Type 0} (lib : Library S H L) where
  kept : Name → Result (Unit {0}) × Log → Exec S H
  kept dir (ok _, l) s = let (h, s') = lib.keep dir l s in (ok h, s')
  kept dir (err e, l) s = (err e, (lib.keep dir l s).1)

  -- `NewLog`, and `newLogStore`, in a directory that has been made.
  open_log : Name → Config L → Exec S H
  open_log dir config s = kept dir (Log.new_log lib.platform (lib.dir_of dir s) config.segment) s

  -- `setupLog`
  pub setup_log : Config L → Name → Exec S H
  setup_log config data_dir = do
    lib.mkdir_all (lib.join (data_dir ∷ log_name ∷ []))
    open_log (lib.join (data_dir ∷ log_name ∷ [])) config

  -- The end of `setupRaft`: a new cluster of this server alone.
  pub bootstrap_new : Config L → H → Bool → Exec S Unit
  bootstrap_new config raft has_state =
      if config.bootstrap && (if has_state then false else true)
      then lib.bootstrap_cluster raft (self_server config ∷ [])
      else pure tt

  -- The second half of `setupRaft`, on the machine's log and the stores.
  start_raft : Config L → H → H → H → H → Exec S H
  start_raft config log log_store stable_store snapshot_store = do
    raft ←
        lib.new_raft config.local_id (timeouts_of lib.default_timeouts config.timeouts) log
          log_store stable_store snapshot_store
          (lib.new_network_transport config.stream_layer 5 ten_seconds)
    has_state ← lib.has_existing_state log_store stable_store snapshot_store
    bootstrap_new config raft has_state
    pure raft

  -- `setupRaft`, with the log of the machine. Raft's log begins at 1.
  pub setup_raft : Config L → Name → H → Exec S H
  setup_raft config data_dir log = do
    lib.mkdir_all (lib.join (data_dir ∷ raft_name ∷ log_name ∷ []))
    log_store ←
        open_log (lib.join (data_dir ∷ raft_name ∷ log_name ∷ []))
          (record config { segment = record config.segment { initial_offset = 1 } })
    stable_store ← lib.new_bolt_store (lib.join (data_dir ∷ raft_name ∷ stable_name ∷ []))
    snapshot_store ← lib.new_file_snapshot_store (lib.join (data_dir ∷ raft_name ∷ [])) 1
    start_raft config log log_store stable_store snapshot_store

  -- `NewDistributedLog`
  pub new_distributed_log : Name → Config L → Exec S (DistributedLog H)
  new_distributed_log data_dir config = do
    log ← setup_log config data_dir
    raft ← setup_raft config data_dir log
    pure (record { log = log; raft = raft })

-- What the `select` of `WaitForLeader` wakes for: the end of the time, or a tick of the clock, before
-- which Raft has gone on.
pub data Wake (S : Type 0) : Type 0 where
  time_out : Wake S
  tick : (S → S) → Wake S

-- `WaitForLeader`, as the wakes come: nothing yet, or what it returned.
pub wait_for_leader : {S : Type 0} → Raft S → List (Wake S) → S → Option (Result (Unit {0})) × S
wait_for_leader raft [] s = (none, s)
wait_for_leader raft (time_out ∷ ws) s = (some (err timed_out), s)
wait_for_leader raft (tick f ∷ ws) s =
    let later = wait_for_leader raft ws (f s) in
    if is_set (raft.leader (f s)) then (some (ok tt), f s) else later
