-- ===== src/Agent.antt =====
-- internal/agent/agent.go: how the parts of a server are started and shut down. The parts stand in a
-- state of their own, and what starts or stops one of them is a parameter.
pub mod Shutdown
use smolkafka.Prelude.{◌≡◌, Bool, true, false, List, [], ◌∷◌, if◌then◌else◌}
use smolkafka.Exec.{Error, Result, ok, err, panic, Exec, ◌>>◌}

-- What `Shutdown` uses of an `Agent`: the parts, the flag, and whether the channel `shutdowns` is
-- closed.
pub record Agent (S : Type 0) : Type 0 where
  pub parts : S
  pub is_shutdown : Bool
  pub is_channel_closed : Bool

-- `Membership.Leave`, `grpc.Server.GracefulStop` and `DistributedLog.Close`.
pub record Parts (S : Type 0) : Type 0 where
  pub leave : Exec S Unit
  pub graceful_stop : S → S
  pub close_log : Exec S Unit

-- The loops of `New` and of `Shutdown` over functions that may fail.
unfoldable pub run_all : {S : Type 0} → List (Exec S Unit) → Exec S Unit
run_all [] s = (ok tt, s)
run_all (f ∷ fs) s = let (r, s') = f s in elim r [ ok _ ↦ run_all fs s' | err e ↦ (err e, s') ]

-- The set-up functions that `New` runs, of the logger, the multiplexer, the log, the server and the
-- membership.
pub record Setup (S : Type 0) : Type 0 where
  pub setup_logger : Exec S Unit
  pub setup_mux : Exec S Unit
  pub setup_log : Exec S Unit
  pub setup_server : Exec S Unit
  pub setup_membership : Exec S Unit

-- `New`, on the parts before any of them is set up: the agent, if every function succeeds.
pub started : {S : Type 0} → Result (Unit {0}) × S → Result (Agent S)
started (ok _, s) = ok (record { parts = s; is_shutdown = false; is_channel_closed = false })
started (err e, s) = err e

pub new_agent : {S : Type 0} → Setup S → S → Result (Agent S)
new_agent f s = started (
    run_all (f.setup_logger ∷ f.setup_mux ∷ f.setup_log ∷ f.setup_server ∷ f.setup_membership ∷ [])
      s)

after_shutdown : Error → Result (Unit {0}) → Result (Unit {0})
after_shutdown e (err panic) = err panic
after_shutdown e _ = err e

module _ {S : Type 0} (p : Parts S) where
  -- The functions that `Shutdown` runs.
  unfoldable pub tear_down : List (Exec S Unit)
  tear_down = p.leave ∷ (λ s. (ok tt, p.graceful_stop s)) ∷ p.close_log ∷ []

  -- `Shutdown`. To close a closed channel panics.
  pub shutdown : Exec (Agent S) Unit
  shutdown a =
      let (r, s) = run_all tear_down a.parts in
      if a.is_shutdown
      then (ok tt, a)
      else if a.is_channel_closed
      then (err panic, record a { is_shutdown = true })
      else (r, record { parts = s; is_shutdown = true; is_channel_closed = true })

  -- `serve`, on what `Serve` of the multiplexer returns: an error shuts the agent down, and what
  -- `Shutdown` returns is dropped, unless it panics.
  pub serve : Result (Unit {0}) → Exec (Agent S) Unit
  serve (ok _) a = (ok tt, a)
  serve (err e) a = let (r, a') = shutdown a in (after_shutdown e r, a')
