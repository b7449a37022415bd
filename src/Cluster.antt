-- ===== src/Cluster.antt =====
-- `DistributedLog` of internal/log/distributed.go: the calls that go through Raft. Raft is a library
-- and a parameter here, with a state of its own, in which the replicated log stands too.
pub mod Joining
pub mod Replicated
pub mod Replicas
use smolkafka.Prelude.{
  ℕ, Bool, true, false, ◌&&◌, ◌||◌, some, List, [], ◌∷◌, ◌++◌, if◌then◌else◌, map,
}
use smolkafka.Exec.{Error, Result, ok, err, panic, Exec, pure, lift, ◌>>=◌, ◌>>◌}
use smolkafka.Bytes.{Bytes}
use smolkafka.Disk.{Name, name_eq}
use smolkafka.Platform.{Platform, Record}
use smolkafka.Raft.{Reply, response, failure, nothing, append_command}

-- `raft.Server`
pub record Server : Type 0 where
  pub id : Name
  pub address : Name

-- The methods of `raft.Raft` that are called, each with its future waited for.
pub record Raft (S : Type 0) : Type 0 where
  pub apply : Bytes → Exec S Reply
  pub get_configuration : Exec S (List Server)
  pub add_voter : Name → Name → Exec S Unit
  pub remove_server : Name → Exec S Unit
  pub leader : S → Name
  pub shutdown : Exec S Unit

-- `api.Server`
pub record ServerInfo : Type 0 where
  pub id : Name
  pub rpc_addr : Name
  pub is_leader : Bool

-- The response of a command that was applied, and the type assertion on it.
pub offset_of : Reply → Result ℕ
offset_of (response off) = ok off
offset_of (failure e) = err e
offset_of nothing = err panic

module _ {S : Type 0} (raft : Raft S) where
  -- `Append`, by `apply`.
  pub append : Platform → Record → Exec S ℕ
  append os r = do b ← lift (append_command os r); reply ← raft.apply b; lift (offset_of reply)

  -- The loop of `Join`, and whether the server is still to be added.
  pub join_loop : Name → Name → List Server → Exec S Bool
  join_loop id addr [] s = (ok true, s)
  join_loop id addr (srv ∷ srvs) s =
      let same_id = name_eq srv.id id in
      let same_addr = name_eq srv.address addr in
      let rest = join_loop id addr srvs in
      if same_id || same_addr
      then (if same_id && same_addr then (ok false, s) else (raft.remove_server id >> rest) s)
      else rest s

  -- `Join`
  pub join : Name → Name → Exec S Unit
  join id addr = do
    servers ← raft.get_configuration
    new ← join_loop id addr servers
    if new then raft.add_voter id addr else pure tt

  -- `Leave`
  pub leave : Name → Exec S Unit
  leave id = raft.remove_server id

  unfoldable pub info_of : S → Server → ServerInfo
  info_of s srv = record {
    id = srv.id;
    rpc_addr = srv.address;
    is_leader = name_eq (raft.leader s) srv.address;
  }

  -- `GetServers`
  unfoldable pub get_servers : Exec S (List ServerInfo)
  get_servers = do servers ← raft.get_configuration; λ s. (ok (map (info_of s) servers), s)

  -- `Close`, with what closes the server's own log.
  pub close : Exec S Unit → Exec S Unit
  close close_log = do raft.shutdown; close_log

  -- `Read`, which does not go through Raft, with what reads the server's own log.
  unfoldable pub read : (ℕ → Exec S Record) → ℕ → Exec S Record
  read read_log off = read_log off
