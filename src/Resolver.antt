-- ===== src/Resolver.antt =====
-- internal/loadbalance/resolver.go: the servers of the cluster as addresses for gRPC, and with them
-- the `GetServers` of internal/server/server.go that answers the resolver.
pub mod Roles
use smolkafka.Prelude.{ℕ, Bool, Option, none, some, List, [], ◌∷◌, ◌++◌, map}
use smolkafka.Exec.{Error, Result, ok, err, Exec, pure, ◌>>=◌, ◌>>◌}
use smolkafka.Disk.{Name}
use smolkafka.Cluster.{Raft, ServerInfo, get_servers}

-- `resolver.Address`, with its attribute "is_leader".
pub record Address : Type 0 where
  pub addr : Name
  pub is_leader : Bool

-- `grpcServer.GetServers`, by the `GetServerer` that the agent gives it, the distributed log.
unfoldable pub serve_servers : {S : Type 0} → Raft S → Exec S (List ServerInfo)
serve_servers raft s =
    let (r, s') = get_servers raft s in
    elim r [ ok servers ↦ (ok servers, s') | err e ↦ (err e, s') ]

-- The loop of `ResolveNow`, with the addresses found so far.
unfoldable pub addresses : List ServerInfo → List Address → List Address
addresses [] found = found
addresses (i ∷ is) found =
    addresses is (found ++ (record { addr = i.rpc_addr; is_leader = i.is_leader } ∷ []))

-- What gRPC was last told by `UpdateState`, and the errors logged.
pub record Resolver : Type 0 where
  pub told : List Address
  pub failures : List Error

-- `ResolveNow`, on what the call of `GetServers` returns.
unfoldable pub resolve_now : Result (List ServerInfo) → Resolver → Resolver
resolve_now (err e) r = record r { failures = r.failures ++ (e ∷ []) }
resolve_now (ok servers) r = record r { told = addresses servers [] }

-- What `Build` and `Close` call of gRPC: a connection to an endpoint with credentials, where there
-- are any, the call of `GetServers` on it, and its end. A connection is named by an `H`.
pub record Grpc (S H T : Type 0) : Type 0 where
  pub new_client : Name → List T → Exec S H
  pub get_servers : H → Exec S (List ServerInfo)
  pub close : H → Exec S Unit

-- `Name`
abbrev pub scheme_name : Name
scheme_name = b's' ∷ b'm' ∷ b'o' ∷ b'l' ∷ b'k' ∷ b'a' ∷ b'f' ∷ b'k' ∷ b'a' ∷ []

-- `Scheme`
pub scheme : Name
scheme = scheme_name

dial_options : {T : Type 0} → Option T → List T
dial_options none = []
dial_options (some creds) = creds ∷ []

on_network : {S A : Type 0} → Exec S A → Exec (S × Resolver) A
on_network m (s, r) = let (x, s') = m s in (x, (s', r))

-- `Close`: an error is logged.
closed : Result (Unit {0}) → Resolver → Resolver
closed (ok _) r = r
closed (err e) r = record r { failures = r.failures ++ (e ∷ []) }

module _ {S H T : Type 0} (grpc : Grpc S H T) where
  resolve_on : H → Exec (S × Resolver) Unit
  resolve_on conn (s, r) = let (x, s') = grpc.get_servers conn s in (ok tt, (s', resolve_now x r))

  -- `Build`
  pub build : Name → Option T → Exec (S × Resolver) H
  build endpoint creds = do
    conn ← on_network (grpc.new_client endpoint (dial_options creds))
    resolve_on conn
    pure conn

  pub close : H → S × Resolver → S × Resolver
  close conn (s, r) = let (x, s') = grpc.close conn s in (s', closed x r)
