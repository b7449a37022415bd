-- ===== src/Cluster/Replicas/Steps.antt =====
-- What the log of a server holds, and that each step of the cluster keeps it so.
use mathlib.Core.Path.{subst, ap₂}
use smolkafka.Prelude.{
  ℕ, ◌≤◌, ◌≡◌, refl, ap, sym, ◌∙◌, List, [], ◌∷◌, ◌++◌, append-nil, append_assoc, arith, length,
  length-append, take, get_elem?, some, get_elem?-lt, take-append_left, take-suc,
}
use smolkafka.Bytes.{Bytes}
use smolkafka.Platform.{Platform, Record}
use smolkafka.Segment.{Config}
use smolkafka.Log.{Log}
use smolkafka.Log.Holds.{Holds}
use smolkafka.Log.Suits.{Suits, Suits-left}
use smolkafka.Log.Contract.{
  Contents, Answer, Promise, found, outside, restarted, read, restart, perform,
}
use smolkafka.Log.Contract.Runs.{Has, perform-read, perform-restart}
use smolkafka.Raft.Agreement.{AreCommands, last_command, no_commands, apply-Holds}
use smolkafka.Cluster.Replicas.{Machine, replayed, commands_of, given, reading, restarting}

-- No life is longer than what was committed.
abbrev AllWithin : ℕ → List ℕ → Type 0
AllWithin n [] = Unit
AllWithin n (k ∷ ks) = (k ≤ n) × AllWithin n ks

AllWithin-more : (n m : ℕ) (ks : List ℕ) → n ≤ m → AllWithin n ks → AllWithin m ks
AllWithin-more n m [] le h = tt
AllWithin-more n m (k ∷ ks) le (h, hs) = (omega arith, AllWithin-more n m ks le hs)

replayed-commit :
    (cs : List Bytes) (b : Bytes) (ks : List ℕ)
    → AllWithin (length cs) ks
    → replayed (cs ++ (b ∷ [])) ks ≡ replayed cs ks
replayed-commit cs b [] h = refl
replayed-commit cs b (k ∷ ks) (h, hs) =
    ap (λ t. t ++ take k (cs ++ (b ∷ []))) (replayed-commit cs b ks hs)
    ∙ ap (λ t. replayed cs ks ++ t) (take-append_left k cs (b ∷ []) h)

-- A server as it is before it is given anything.
pub record IsNew (c : Config) (base : ℕ) (m : Machine) : Type 0 where
  pub empty : Holds m.log base []
  pub config_lem : m.log.config ≡ c
  pub none_applied : m.applied ≡ 0
  pub no_lives : m.lives ≡ []

module _ (os : Platform) where
  -- The log of a server holds the records of all the commands that it was given.
  pub record IsReplica (c : Config) (base : ℕ) (committed : List Bytes) (m : Machine) : Type 0 where
    pub within : m.applied ≤ length committed
    pub lives_within : AllWithin (length committed) m.lives
    pub holds :
        (rs : List Record) (ps : List Bytes)
        → Suits c ps
        → AreCommands os c base rs (commands_of committed m) ps
        → Has c m.log (record { first = base; payloads = ps })

  pub IsNew-IsReplica :
      (c : Config) (base : ℕ) (committed : List Bytes) (m : Machine)
      → IsNew c base m
      → IsReplica c base committed m
  IsNew-IsReplica c base committed m h =
      let nothing_given : commands_of committed m ≡ [] =
        ap₂ (λ ks k. replayed committed ks ++ take k committed) h.no_lives h.none_applied in
      record {
        within = omega (arith, h.none_applied);
        lives_within = subst (AllWithin (length committed)) (sym h.no_lives) tt;
        holds = λ rs ps suits are.
            subst (λ qs. Has c m.log (record { first = base; payloads = qs }))
              (sym (
                no_commands os c base rs ps
                  (subst (λ bs. AreCommands os c base rs bs ps) nothing_given are)))
              (record { holds = h.empty; config_lem = h.config_lem });
      }

  pub commit-IsReplica :
      (c : Config) (base : ℕ) (committed : List Bytes) (b : Bytes) (m : Machine)
      → IsReplica c base committed m
      → IsReplica c base (committed ++ (b ∷ [])) m
  commit-IsReplica c base committed b m h =
      let longer : length committed ≤ length (committed ++ (b ∷ [])) =
        omega (arith, length-append committed (b ∷ [])) in
      let same : commands_of (committed ++ (b ∷ [])) m ≡ commands_of committed m =
        ap₂ (λ xs ys. xs ++ ys) (replayed-commit committed b m.lives h.lives_within)
          (take-append_left m.applied committed (b ∷ []) h.within) in
      record {
        within = omega (arith, h.within);
        lives_within = AllWithin-more _ _ m.lives longer h.lives_within;
        holds = λ rs ps suits are.
            h.holds rs ps suits (subst (λ bs. AreCommands os c base rs bs ps) same are);
      }

  commands_of-given :
      (committed : List Bytes) (b : Bytes) (m : Machine)
      → get_elem? committed m.applied ≡ some b
      → commands_of committed (given os b m) ≡ commands_of committed m ++ (b ∷ [])
  commands_of-given committed b m at =
      ap (λ t. replayed committed m.lives ++ t) (take-suc m.applied committed b at)
      ∙ sym (append_assoc (replayed committed m.lives) (take m.applied committed) (b ∷ []))

  given-Has :
      (c : Config) (base : ℕ) (committed : List Bytes) (b : Bytes) (m : Machine) (rs : List Record)
      (ps : List Bytes)
      → Suits c ps
      → IsReplica c base committed m
      → AreCommands os c base rs (commands_of committed m ++ (b ∷ [])) ps
      → Has c (given os b m).log (record { first = base; payloads = ps })
  given-Has c base committed b m rs ps suits h are =
      let l = last_command os c base rs (commands_of committed m) b ps are in
      let first = Suits-left c l.payloads (l.payload ∷ []) (subst (Suits c) l.ps_lem suits) in
      let has = h.holds l.records l.payloads first l.before in
      let (_, holds, same) =
        apply-Holds os l.rec b l.payload m.log base l.payloads l.command_lem has.holds
          (subst (λ k. Suits k l.payloads) (sym has.config_lem) first) l.marshal_lem
          (omega (arith, l.store_room, ap (λ (k : Config). k.max_store_bytes) has.config_lem))
          l.offset_room in
      subst (λ qs. Has c (given os b m).log (record { first = base; payloads = qs })) (sym l.ps_lem)
        (record { holds = holds; config_lem = same ∙ has.config_lem })

  pub given-IsReplica :
      (c : Config) (base : ℕ) (committed : List Bytes) (b : Bytes) (m : Machine)
      → get_elem? committed m.applied ≡ some b
      → IsReplica c base committed m
      → IsReplica c base committed (given os b m)
  given-IsReplica c base committed b m at h = record {
    within = omega (arith, get_elem?-lt committed m.applied at);
    lives_within = h.lives_within;
    holds = λ rs ps suits are.
        given-Has c base committed b m rs ps suits h
          (subst (λ bs. AreCommands os c base rs bs ps) (commands_of-given committed b m at) are);
  }

  -- A call that leaves the contents.
  read-same : {off : ℕ} {x : Answer} {a b : Contents} → Promise os (read off) x a b → b ≡ a
  read-same (found off a p at) = refl
  read-same (outside off a out) = refl

  restart-same : {x : Answer} {a b : Contents} → Promise os restart x a b → b ≡ a
  restart-same (restarted a) = refl

  reading-Has :
      (c : Config) (off : ℕ) (a : Contents) (l : Log)
      → Has c l a
      → Has c (perform os (read off) l).1 a
  reading-Has c off a l h =
      let (b, kept, has) = perform-read os c off l a h in
      subst (Has c (perform os (read off) l).1) (read-same kept) has

  pub restarting-Has :
      (c : Config) (a : Contents) (l : Log) → Has c l a → Has c (perform os restart l).1 a
  restarting-Has c a l h =
      let (b, kept, has) = perform-restart os c l a h in
      subst (Has c (perform os restart l).1) (restart-same kept) has

  pub reading-IsReplica :
      (c : Config) (base off : ℕ) (committed : List Bytes) (m : Machine)
      → IsReplica c base committed m
      → IsReplica c base committed (reading os off m)
  reading-IsReplica c base off committed m h = record {
    within = h.within;
    lives_within = h.lives_within;
    holds = λ rs ps suits are. reading-Has c off _ m.log (h.holds rs ps suits are);
  }

  pub restarting-IsReplica :
      (c : Config) (base : ℕ) (committed : List Bytes) (m : Machine)
      → IsReplica c base committed m
      → IsReplica c base committed (restarting os m)
  restarting-IsReplica c base committed m h = record {
    within = omega arith;
    lives_within = (h.within, h.lives_within);
    holds = λ rs ps suits are. restarting-Has c _ m.log (
        h.holds rs ps suits (
          subst (λ bs. AreCommands os c base rs bs ps) (append-nil (commands_of committed m)) are));
  }
