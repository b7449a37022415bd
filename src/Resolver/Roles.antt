-- ===== src/Resolver/Roles.antt =====
-- From Raft's configuration to the picker.
use mathlib.Core.Path.{subst}
use mathlib.Core.List.{Perm}
use mathlib.Core.List.Perm
use smolkafka.Prelude.{
  ℕ, ◌≡◌, refl, ap, ◌∙◌, sym, Bool, some, List, [], ◌∷◌, ◌++◌, append_assoc, append-nil, map,
}
use smolkafka.Exec.{Result, ok}
use smolkafka.Disk.{Name, name_eq}
use smolkafka.Cluster.{Server, Raft, ServerInfo, info_of, get_servers}
use smolkafka.Picker.{Picker, SubConnInfo, build}
use smolkafka.Picker.RoundRobin.{infos, followers_of, leader_of, build_lem}
use smolkafka.Picker.Orders.{AtMostOne, leaders_of, followers_of-Perm, leader_of-Perm}
use smolkafka.Resolver.{Address, serve_servers, addresses, Resolver, resolve_now}

-- gRPC's connections to addresses, all of them ready.
abbrev pub ready : (Name → ℕ) → List Address → List SubConnInfo
ready conn [] = []
ready conn (a ∷ found) =
    record { sub_conn = conn a.addr; is_leader = some a.is_leader } ∷ ready conn found

-- The connections to the servers, with whether the server has the leader's address.
abbrev pub roles : (Name → ℕ) → Name → List Server → List (ℕ × Bool)
roles conn leader [] = []
roles conn leader (srv ∷ srvs) =
    (conn srv.address, name_eq leader srv.address) ∷ roles conn leader srvs

role : (Name → ℕ) → Address → ℕ × Bool
role conn a = (conn a.addr, a.is_leader)

ready-infos :
    (conn : Name → ℕ) (found : List Address) → ready conn found ≡ infos (map (role conn) found)
unfolding role
ready-infos conn [] = refl
ready-infos conn (a ∷ found) =
    ap (λ t. record { sub_conn = conn a.addr; is_leader = some a.is_leader } ∷ t)
      (ready-infos conn found)

address_of : ServerInfo → Address
address_of i = record { addr = i.rpc_addr; is_leader = i.is_leader }

addresses_lem :
    (is : List ServerInfo) (found : List Address) → addresses is found ≡ found ++ map address_of is
unfolding addresses address_of
addresses_lem [] found = sym (append-nil found)
addresses_lem (i ∷ is) found =
    addresses_lem is (found ++ (address_of i ∷ []))
    ∙ append_assoc found (address_of i ∷ []) (map address_of is)

module _ {S : Type 0} (raft : Raft S) (conn : Name → ℕ) where
  -- The roles of the addresses that the servers give.
  map-role-roles :
      (s : S) (srvs : List Server)
      → map (role conn) (map address_of (map (info_of raft s) srvs))
        ≡ roles conn (raft.leader s) srvs
  unfolding address_of info_of role
  map-role-roles s [] = refl
  map-role-roles s (srv ∷ srvs) =
      ap (λ t. (conn srv.address, name_eq (raft.leader s) srv.address) ∷ t) (map-role-roles s srvs)

  get_servers_lem :
      (s : S) (srvs : List Server)
      → raft.get_configuration s ≡ (ok srvs, s)
      → get_servers raft s ≡ (ok (map (info_of raft s) srvs), s)
  unfolding get_servers
  get_servers_lem s srvs gets =
      rw
        (
          ap (λ (x : Result (List Server) × S). x.0) gets,
          ap (λ (x : Result (List Server) × S). x.1) gets,
        )
        refl

  serve_servers_lem :
      (s : S) (srvs : List Server)
      → raft.get_configuration s ≡ (ok srvs, s)
      → (serve_servers raft s).0 ≡ ok (map (info_of raft s) srvs)
  unfolding serve_servers
  serve_servers_lem s srvs gets =
      rw
        (
          ap (λ (x : Result (List ServerInfo) × S). x.0) (get_servers_lem s srvs gets),
          serve_servers,
        )
        refl

  told-roles :
      (s : S) (srvs : List Server) (r : Resolver)
      → raft.get_configuration s ≡ (ok srvs, s)
      → map (role conn) (resolve_now (serve_servers raft s).0 r).told
        ≡ roles conn (raft.leader s) srvs
  unfolding resolve_now
  told-roles s srvs r gets =
      ap (λ x. map (role conn) (resolve_now x r).told) (serve_servers_lem s srvs gets)
      ∙ ap (map (role conn)) (addresses_lem (map (info_of raft s) srvs) [])
      ∙ map-role-roles s srvs

  -- Where Raft's configuration can be read and at most one of its servers has the leader's
  -- address, the picker that is built from what the resolver tells gRPC, if every address is ready
  -- and in whatever order the ready connections come, follows Raft: the servers whose address is
  -- not the leader's are its followers, each as often as it is configured, and the one with the
  -- leader's address is its leader; if there is none, the leader of an earlier build stays.
  pub build-resolve_now :
      (s : S) (srvs : List Server) (r : Resolver) (p : Picker) (found : List Address)
      → raft.get_configuration s ≡ (ok srvs, s)
      → AtMostOne (leaders_of (roles conn (raft.leader s) srvs))
      → Perm found (resolve_now (serve_servers raft s).0 r).told
      → let (x, q) = build (ready conn found) p in
        (x ≡ ok tt)
        × (q.leader ≡ leader_of p.leader (roles conn (raft.leader s) srvs))
        × Perm q.followers (followers_of (roles conn (raft.leader s) srvs))
        × (q.current ≡ p.current)
  build-resolve_now s srvs r p found gets one order =
      let perm : Perm (map (role conn) found) (roles conn (raft.leader s) srvs) =
        subst (Perm (map (role conn) found)) (told-roles s srvs r gets)
          (Perm.map (role conn) order) in
      rw (ap (λ is. build is p) (ready-infos conn found) ∙ build_lem (map (role conn) found) p) (
        refl,
        leader_of-Perm p.leader (map (role conn) found) (roles conn (raft.leader s) srvs) perm one,
        followers_of-Perm (map (role conn) found) (roles conn (raft.leader s) srvs) perm,
        refl,
      )
