-- ===== src/Startup/Waiting.antt =====
-- `WaitForLeader` comes to an end.
use smolkafka.Prelude.{
  ◌≡◌, refl, Bool, false, Bool-cases, ◌||◌, inl, inr, some, List, [], ◌∷◌, ◌++◌, if◌then◌else◌,
}
use smolkafka.Exec.{ok, err, timed_out}
use smolkafka.Config.{is_set}
use smolkafka.Cluster.{Raft}
use smolkafka.Startup.{Wake, time_out, tick, wait_for_leader}

-- Whether Raft knows a leader at one of the ticks.
abbrev pub sees_leader : {S : Type 0} → Raft S → List (S → S) → S → Bool
sees_leader raft [] s = false
sees_leader raft (f ∷ fs) s = is_set (raft.leader (f s)) || sees_leader raft fs (f s)

abbrev pub ticks : {S : Type 0} → List (S → S) → List (Wake S)
ticks [] = []
ticks (f ∷ fs) = tick f ∷ ticks fs

module _ {S : Type 0} (raft : Raft S) where
  -- `WaitForLeader` returns when its time is over at the latest: without an error if Raft knew a
  -- leader at a tick before, and with the error of the time if not.
  pub wait_for_leader-time_out :
      (fs : List (S → S)) (ws : List (Wake S)) (s : S)
      → (wait_for_leader raft (ticks fs ++ (time_out ∷ ws)) s).0
        ≡ some (if sees_leader raft fs s then ok tt else err timed_out)
  unfolding wait_for_leader
  wait_for_leader-time_out [] ws s = refl
  wait_for_leader-time_out (f ∷ fs) ws s = elim (Bool-cases (is_set (raft.leader (f s)))) [
    | inl h ↦ rw h refl
    | inr h ↦ rw h (wait_for_leader-time_out fs ws (f s))
  ]
