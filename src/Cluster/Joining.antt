-- ===== src/Cluster/Joining.antt =====
-- What becomes of Raft's configuration.
use smolkafka.Prelude.{◌≡◌, refl, ap, Bool, true, false, ◌&&◌, ◌||◌, arith, List, [], ◌∷◌, ◌++◌}
use smolkafka.Exec.{Result, ok}
use smolkafka.Disk.{Name, name_eq}
use smolkafka.Cluster.{Server, Raft, join_loop, join}

-- The server is in the configuration.
abbrev pub has : Name → Name → List Server → Bool
has id addr [] = false
has id addr (srv ∷ srvs) = (name_eq srv.id id && name_eq srv.address addr) || has id addr srvs

-- Neither its id nor its address is used.
abbrev pub IsApart : Name → Name → List Server → Type 0
IsApart id addr [] = Unit
IsApart id addr (srv ∷ srvs) =
    ((name_eq srv.id id || name_eq srv.address addr) ≡ false) × IsApart id addr srvs

module _ {S : Type 0} (raft : Raft S) where
  join_loop-has :
      (id addr : Name) (before : List Server) (srv : Server) (after : List Server) (s : S)
      → IsApart id addr before
      → (name_eq srv.id id && name_eq srv.address addr) ≡ true
      → join_loop raft id addr (before ++ (srv ∷ after)) s ≡ (ok false, s)
  unfolding join_loop
  join_loop-has id addr [] srv after s apart is = ground arith
  join_loop-has id addr (b ∷ before) srv after s (differs, apart) is =
      rw differs (join_loop-has id addr before srv after s apart is)

  -- `Join` of a server that is in the configuration, with none before it of its id or its address,
  -- does nothing but read the configuration.
  pub join-joined :
      (id addr : Name) (before : List Server) (srv : Server) (after : List Server) (s : S)
      → raft.get_configuration s ≡ (ok (before ++ (srv ∷ after)), s)
      → IsApart id addr before
      → (name_eq srv.id id && name_eq srv.address addr) ≡ true
      → join raft id addr s ≡ (ok tt, s)
  unfolding join
  join-joined id addr before srv after s gets apart is =
      let loop = join_loop-has id addr before srv after s apart is in
      rw
        (
          ap (λ (x : Result (List Server) × S). x.0) gets,
          ap (λ (x : Result (List Server) × S). x.1) gets,
          ap (λ (x : Result Bool × S). x.0) loop,
          ap (λ (x : Result Bool × S). x.1) loop,
        )
        refl

  join_loop-apart :
      (id addr : Name) (srvs : List Server) (s : S)
      → IsApart id addr srvs
      → join_loop raft id addr srvs s ≡ (ok true, s)
  unfolding join_loop
  join_loop-apart id addr [] s apart = refl
  join_loop-apart id addr (srv ∷ srvs) s (differs, apart) =
      rw differs (join_loop-apart id addr srvs s apart)

  -- `Join` of a server whose id and address nobody has adds it as a voter, and does nothing else.
  pub join-new :
      (id addr : Name) (srvs : List Server) (s : S)
      → raft.get_configuration s ≡ (ok srvs, s)
      → IsApart id addr srvs
      → join raft id addr s ≡ raft.add_voter id addr s
  unfolding join
  join-new id addr srvs s gets apart =
      let loop = join_loop-apart id addr srvs s apart in
      rw
        (
          ap (λ (x : Result (List Server) × S). x.0) gets,
          ap (λ (x : Result (List Server) × S). x.1) gets,
          ap (λ (x : Result Bool × S). x.0) loop,
          ap (λ (x : Result Bool × S). x.1) loop,
        )
        refl

  join_loop-moved :
      (id addr : Name) (before : List Server) (srv : Server) (after : List Server) (s t : S)
      → IsApart id addr before
      → IsApart id addr after
      → name_eq srv.id id ≡ true
      → name_eq srv.address addr ≡ false
      → raft.remove_server id s ≡ (ok tt, t)
      → join_loop raft id addr (before ++ (srv ∷ after)) s ≡ (ok true, t)
  unfolding join_loop
  join_loop-moved id addr [] srv after s t apart apart_after same moved removes =
      let loop = join_loop-apart id addr after t apart_after in
      rw
        (
          same,
          moved,
          ap (λ (x : Result (Unit {0}) × S). x.0) removes,
          ap (λ (x : Result (Unit {0}) × S). x.1) removes,
        )
        loop
  join_loop-moved id addr (b ∷ before) srv after s t (differs, apart) apart_after same moved
        removes =
      rw differs (join_loop-moved id addr before srv after s t apart apart_after same moved removes)

  -- `Join` of a server whose id is in the configuration with another address, where nobody else
  -- has its id or its address and the removal succeeds, removes it and adds it again with the new
  -- address.
  pub join-moved :
      (id addr : Name) (before : List Server) (srv : Server) (after : List Server) (s t : S)
      → raft.get_configuration s ≡ (ok (before ++ (srv ∷ after)), s)
      → IsApart id addr before
      → IsApart id addr after
      → name_eq srv.id id ≡ true
      → name_eq srv.address addr ≡ false
      → raft.remove_server id s ≡ (ok tt, t)
      → join raft id addr s ≡ raft.add_voter id addr t
  unfolding join
  join-moved id addr before srv after s t gets apart apart_after same moved removes =
      let loop =
        join_loop-moved id addr before srv after s t apart apart_after same moved removes in
      rw
        (
          ap (λ (x : Result (List Server) × S). x.0) gets,
          ap (λ (x : Result (List Server) × S). x.1) gets,
          ap (λ (x : Result Bool × S). x.0) loop,
          ap (λ (x : Result Bool × S). x.1) loop,
        )
        refl
