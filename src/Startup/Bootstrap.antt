-- ===== src/Startup/Bootstrap.antt =====
-- When `NewDistributedLog` begins a new cluster, and when it does not.
use smolkafka.Prelude.{◌≡◌, ◌≢◌, ap, ◌∙◌, ◌⊎◌, inl, inr, Bool, true, false, Bool-cases, [], ◌∷◌, ℕ}
use smolkafka.Exec.{Result, err, ok, Exec, pure, ◌>>=◌, ◌>>◌}
use smolkafka.Exec.Kept.{Kept, Kept-bind, Kept-bind_ok}
use smolkafka.Disk.{Name}
use smolkafka.Log
use smolkafka.Log.{Log}
use smolkafka.Startup.{
  log_name, kept, open_log, ten_seconds, timeouts_of, start_raft, DistributedLog, Timeouts, Config,
  Library, setup_log, bootstrap_new, setup_raft, new_distributed_log,
}

-- Every call but that of `BootstrapCluster` keeps `P`.
pub record Keeps {S H L : Type 0} (P : S → Type 0) (lib : Library S H L) : Type 0 where
  pub mkdir_all_lem : (n : Name) → Kept P (lib.mkdir_all n)
  pub keep_lem : (n : Name) (l : Log) (s : S) → P s → P (lib.keep n l s).1
  pub new_bolt_store_lem : (n : Name) → Kept P (lib.new_bolt_store n)
  pub new_file_snapshot_store_lem : (n : Name) (k : ℕ) → Kept P (lib.new_file_snapshot_store n k)
  pub new_raft_lem : (n : Name) (t : Timeouts) (a b c d e : H) → Kept P (lib.new_raft n t a b c d e)
  pub has_existing_state_lem : (a b c : H) → Kept P (lib.has_existing_state a b c)

module _ {S H L : Type 0} (lib : Library S H L) (P : S → Type 0) where
  -- Nothing is bootstrapped by a server that is not to, or that has state.
  bootstrap_new-Kept :
      (config : Config L) (raft : H) (has_state : Bool)
      → (config.bootstrap ≡ false) ⊎ (has_state ≡ true)
      → Kept P (bootstrap_new lib config raft has_state)
  unfolding bootstrap_new
  bootstrap_new-Kept config raft has_state (inl h) s p = rw h p
  bootstrap_new-Kept config raft has_state (inr h) s p = elim (Bool-cases config.bootstrap) [
    | inl b ↦ rw (h, b) p
    | inr b ↦ rw b p
  ]

  open_log-Kept : (dir : Name) (config : Config L) → Keeps P lib → Kept P (open_log lib dir config)
  unfolding open_log kept
  open_log-Kept dir config k s p =
      kept_by (Log.new_log lib.platform (lib.dir_of dir s) config.segment)
    where
      kept_by : (x : Result (Unit {0}) × Log) → P (kept lib dir x s).1
      kept_by (ok u, l) = k.keep_lem dir l s p
      kept_by (err e, l) = k.keep_lem dir l s p

  setup_log-Kept :
      (config : Config L) (data_dir : Name) → Keeps P lib → Kept P (setup_log lib config data_dir)
  unfolding setup_log
  setup_log-Kept config data_dir k =
      let dir = lib.join (data_dir ∷ log_name ∷ []) in
      Kept-bind P (lib.mkdir_all dir) (λ _. open_log lib dir config) (k.mkdir_all_lem dir)
        (λ _. open_log-Kept dir config k)

  -- Either the server is not to begin a cluster, or Raft finds state wherever `P` holds.
  pub record IsMember (config : Config L) : Type 0 where
    pub why :
        (config.bootstrap ≡ false)
        ⊎ ((a b c : H) (s : S)
            → P (lib.has_existing_state a b c s).1
            → (lib.has_existing_state a b c s).0 ≢ ok false)

  start_raft-Kept :
      (config : Config L) (log a b c : H)
      → Keeps P lib
      → IsMember config
      → Kept P (start_raft lib config log a b c)
  unfolding start_raft
  start_raft-Kept config log a b c k member =
      Kept-bind P
        (lib.new_raft config.local_id (timeouts_of lib.default_timeouts config.timeouts) log a b c
          (lib.new_network_transport config.stream_layer 5 ten_seconds))
        (λ raft. lib.has_existing_state a b c >>= finish raft) (k.new_raft_lem _ _ _ _ _ _ _)
        (λ raft.
          Kept-bind_ok P (lib.has_existing_state a b c) (finish raft)
            (k.has_existing_state_lem a b c)
            (λ has_state s e p.
              Kept-bind P (bootstrap_new lib config raft has_state) (λ _. pure raft)
                (bootstrap_new-Kept config raft has_state (elim member.why [
                  | inl off ↦ inl off
                  | inr found ↦ inr (elim (Bool-cases has_state) [
                    | inl h ↦ h
                    | inr h ↦ absurd (found a b c s p (e ∙ ap ok h))
                  ])
                ]))
                (λ _ t q. q) (lib.has_existing_state a b c s).1 p))
    where
      finish : H → Bool → Exec S H
      finish raft has_state = do bootstrap_new lib config raft has_state; pure raft

  setup_raft-Kept :
      (config : Config L) (data_dir : Name) (log : H)
      → Keeps P lib
      → IsMember config
      → Kept P (setup_raft lib config data_dir log)
  unfolding setup_raft
  setup_raft-Kept config data_dir log k member = search (
    Kept-bind, k.mkdir_all_lem, open_log-Kept, k.new_bolt_store_lem, k.new_file_snapshot_store_lem,
    start_raft-Kept, k, member,
  )

  -- `NewDistributedLog` leaves true whatever every call of a library but `BootstrapCluster` leaves
  -- true, if the server is not to bootstrap, or if Raft finds state wherever that holds: an
  -- existing cluster is not begun anew.
  pub new_distributed_log-IsMember :
      (config : Config L) (data_dir : Name)
      → Keeps P lib
      → IsMember config
      → (s : S) → P s
      → P (new_distributed_log lib data_dir config s).1
  unfolding new_distributed_log
  new_distributed_log-IsMember config data_dir k member =
      Kept-bind P (setup_log lib config data_dir) with_raft (setup_log-Kept config data_dir k)
        (λ log.
          Kept-bind P (setup_raft lib config data_dir log)
            (λ raft. pure (record { log = log; raft = raft }))
            (setup_raft-Kept config data_dir log k member) (λ raft s p. p))
    where
      with_raft : H → Exec S (DistributedLog H)
      with_raft log = do
        raft ← setup_raft lib config data_dir log
        pure (record { log = log; raft = raft })
