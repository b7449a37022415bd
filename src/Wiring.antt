-- ===== src/Wiring.antt =====
-- The set-up functions of internal/agent/agent.go: which part of a server is given which address and
-- which settings. The listener, the multiplexer, gRPC and casbin are parameters, and so are the
-- packages that the log and the membership are set up by.
pub mod Addresses
use smolkafka.Prelude.{
  ℕ, ◌*◌, Bool, true, false, Option, none, some, List, [], ◌∷◌, ◌++◌, if◌then◌else◌,
}
use smolkafka.Exec.{
  Result, ok, err, panic, Exec, pure, lift, gets, modify, map_result, zoom, ◌>>=◌, ◌>>◌,
}
use smolkafka.Disk.{Name}
use smolkafka.Text.{ℤ, host_port}
use smolkafka.Segment
use smolkafka.Cluster.{Raft}
use smolkafka.Startup
use smolkafka.Startup.{
  Library, DistributedLog, new_distributed_log, Timeouts, Wake, time_out, tick, wait_for_leader,
}
use smolkafka.Membership
use smolkafka.Membership.{Serf, TcpAddr, new_membership}
use smolkafka.Server.Calls.{Grpc, new_grpc_server}
use smolkafka.Agent.{Setup, new_agent, Agent}

-- `Config`, with the type of TLS settings; nil settings are none.
pub record Config (T : Type 0) : Type 0 where
  pub server_tls_config : Option T
  pub peer_tls_config : Option T
  pub data_dir : Name
  pub bind_addr : Name
  pub rpc_port : ℤ
  pub node_name : Name
  pub start_join_addrs : Option (List Name)
  pub acl_model_file : Name
  pub acl_policy_file : Name
  pub bootstrap : Bool

-- The fields of `StreamLayer`, over a listener.
pub record StreamLayer (M T : Type 0) : Type 0 where
  pub ln : M
  pub server_tls_config : Option T
  pub peer_tls_config : Option T

-- `auth.New` names the files of casbin's model and policy; `server.Config` holds what the service
-- calls.
pub record ServerConfig (H : Type 0) : Type 0 where
  pub commit_log : Option (DistributedLog H)
  pub acl_model_file : Name
  pub acl_policy_file : Name

-- `net.SplitHostPort`, `net.Listen`, `cmux.New` over a listener, `Match` of Raft's connections and of
-- any that are left, gRPC, and `Serve` beside the caller. What these give is named by an `M`.
pub record Packages (S M T H O : Type 0) : Type 0 where
  pub split_host_port : Name → Result (Name × Name)
  pub resolve_tcp_addr : Name → Result TcpAddr
  pub new_development : Exec S Unit
  pub listen : Name → Exec S M
  pub new_mux : M → M
  pub match_raft : M → M
  pub match_any : M → M
  -- gRPC, with the service of a configuration to register, and `grpc.Creds` of TLS settings.
  pub grpc_of : ServerConfig H → Grpc S M O
  pub creds : T → O
  pub serve : M → M → S → S
  -- How `raft.Raft` is called on what `NewRaft` gave.
  pub raft_of : H → Raft S
  -- What Raft does before each tick of the three seconds for which `setupLog` waits.
  pub before_ticks : List (S → S)

-- The agent's fields so far, which are nil at first, beside everything else.
pub record Parts (S M H : Type 0) : Type 0 where
  pub world : S
  pub mux : Option M
  pub log : Option (DistributedLog H)
  pub server : Option M
  pub membership : Option H

-- A field that a call needs; a nil one panics.
field : {S A : Type 0} → (S → Option A) → Exec S A
field get s = elim (get s) [ some a ↦ (ok a, s) | none ↦ (err panic, s) ]

in_world : {S M H A : Type 0} → Exec S A → Exec (Parts S M H) A
in_world m = zoom (λ p. p.world) (λ p s. record p { world = s }) m

-- The ticks, and then the end of the time.
abbrev wakes : {S : Type 0} → List (S → S) → List (Wake S)
wakes [] = time_out ∷ []
wakes (f ∷ fs) = tick f ∷ wakes fs

-- `WaitForLeader` returns at the end of its time at the latest.
waited : Option (Result (Unit {0})) → Result (Unit {0})
waited (some r) = r
waited none = err panic

abbrev zero_timeouts : Timeouts
zero_timeouts = record { heartbeat = 0; election = 0; leader_lease = 0; commit = 0 }

abbrev zero_segment : Segment.Config
zero_segment = record { max_store_bytes = 0; max_index_bytes = 0; initial_offset = 0 }

-- The tag by which a member tells its address.
abbrev pub rpc_addr_tag : Name
rpc_addr_tag = b'r' ∷ b'p' ∷ b'c' ∷ b'_' ∷ b'a' ∷ b'd' ∷ b'd' ∷ b'r' ∷ []

module _ {S M T H O : Type 0} (pkg : Packages S M T H O) (c : Config T) where
  -- `RPCAddr`
  unfoldable pub rpc_addr : Result Name
  rpc_addr =
      map_result (λ (host, port). host_port host c.rpc_port) (pkg.split_host_port c.bind_addr)

  -- The configuration that `setupLog` gives to the log, over the connections that are Raft's.
  unfoldable pub log_config : M → Result (Startup.Config (StreamLayer M T))
  log_config raft_ln =
      map_result
        (λ addr. record {
          local_id = c.node_name;
          timeouts = zero_timeouts;
          bind_addr = addr;
          stream_layer = some (record {
            ln = raft_ln;
            server_tls_config = c.server_tls_config;
            peer_tls_config = c.peer_tls_config;
          });
          bootstrap = c.bootstrap;
          segment = zero_segment;
        })
        rpc_addr

  -- The configuration that `setupMembership` gives to the membership.
  unfoldable pub membership_config : Result Membership.Config
  membership_config =
      map_result
        (λ addr. record {
          node_name = c.node_name;
          bind_addr = c.bind_addr;
          tags = (rpc_addr_tag, addr) ∷ [];
          start_join_addrs = c.start_join_addrs;
        })
        rpc_addr

  -- `setupLogger`
  setup_logger : Exec (Parts S M H) Unit
  setup_logger = in_world pkg.new_development

  -- `setupMux`
  pub setup_mux : Exec (Parts S M H) Unit
  setup_mux = do
    addr ← lift (pkg.resolve_tcp_addr c.bind_addr)
    ln ← in_world (pkg.listen (host_port addr.ip c.rpc_port))
    modify (λ p. record p { mux = some (pkg.new_mux ln) })

  wait_for_log : DistributedLog H → Exec S Unit
  wait_for_log log s =
      let (r, s') = wait_for_leader (pkg.raft_of log.raft) (wakes pkg.before_ticks) s in
      (waited r, s')

  -- The credentials among the options of the server.
  credentials : Option T → List O
  credentials none = []
  credentials (some t) = pkg.creds t ∷ []

  -- `setupServer`, which needs the multiplexer too.
  pub setup_server : Exec (Parts S M H) Unit
  setup_server = do
    log ← gets (λ p. p.log)
    server ← in_world (
        new_grpc_server
          (pkg.grpc_of (record {
            commit_log = log;
            acl_model_file = c.acl_model_file;
            acl_policy_file = c.acl_policy_file;
          }))
          (credentials c.server_tls_config))
    modify (λ p. record p { server = some server })
    mux ← field (λ p. p.mux)
    modify (λ p. record p { world = pkg.serve server (pkg.match_any mux) p.world })

module _ {S M T H O : Type 0} (pkg : Packages S M T H O) (lib : Library S H (StreamLayer M T))
    (serf : Serf S H) (c : Config T) where
  -- `setupLog`
  pub setup_log : Exec (Parts S M H) Unit
  setup_log = do
    mux ← field (λ p. p.mux)
    config ← lift (log_config pkg c (pkg.match_raft mux))
    log ← in_world (new_distributed_log lib c.data_dir config)
    modify (λ p. record p { log = some log })
    if c.bootstrap then in_world (wait_for_log pkg c log) else pure tt

  -- `setupMembership`
  pub setup_membership : Exec (Parts S M H) Unit
  setup_membership = do
    config ← lift (membership_config pkg c)
    node ← in_world (new_membership serf config)
    modify (λ p. record p { membership = some node })

  -- What `New` runs.
  pub setup : Setup (Parts S M H)
  setup = record {
    setup_logger = setup_logger pkg c;
    setup_mux = setup_mux pkg c;
    setup_log = setup_log;
    setup_server = setup_server pkg c;
    setup_membership = setup_membership;
  }

  pub new : S → Result (Agent (Parts S M H))
  new s =
      new_agent setup
        (record { world = s; mux = none; log = none; server = none; membership = none })
