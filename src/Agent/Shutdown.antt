-- ===== src/Agent/Shutdown.antt =====
-- `Shutdown`, which every part that fails may call.
use smolkafka.Prelude.{◌≡◌, refl, ap, true, false, List, [], ◌∷◌}
use smolkafka.Exec.{Error, Result, ok, err, panic, Exec}
use smolkafka.Agent.{
  Agent, Parts, after_shutdown, run_all, tear_down, Setup, started, new_agent, shutdown, serve,
}

module _ {S : Type 0} (p : Parts S) where
  -- The first `Shutdown` of an agent tears its parts down and returns what that returned, and a
  -- second one succeeds and does nothing, so that the channel is closed once.
  pub shutdown-shutdown :
      (a : Agent S)
      → a.is_shutdown ≡ false
      → a.is_channel_closed ≡ false
      → ((shutdown p a).0 ≡ (run_all (tear_down p) a.parts).0)
        × (shutdown p (shutdown p a).1 ≡ (ok tt, (shutdown p a).1))
  unfolding shutdown
  shutdown-shutdown a runs opened = rw (runs, opened) (refl, refl)

  -- What makes an agent stop: a call of `Shutdown`, or an error of the multiplexer that serves it.
  pub data Cause : Type 0 where
    asked : Cause
    serving_failed : Error → Cause

  pub stop : Cause → Exec (Agent S) Unit
  stop asked = shutdown p
  stop (serving_failed e) = serve p (err e)

  -- Every cause in turn, and what each call returns.
  pub stop_all : List Cause → Agent S → List (Result (Unit {0})) × Agent S
  stop_all [] a = ([], a)
  stop_all (c ∷ cs) a = let (r, a') = stop c a in let (rs, a'') = stop_all cs a' in (r ∷ rs, a'')

  -- What a call returns of an agent that tears its parts down with the result given: `Shutdown`
  -- that result, and `serve` the multiplexer's error, unless the tear-down panicked.
  abbrev pub first_answer : Cause → Result (Unit {0}) → Result (Unit {0})
  first_answer asked r = r
  first_answer (serving_failed e) (err panic) = err panic
  first_answer (serving_failed e) _ = err e

  -- What the calls return of an agent that was shut down: success, or the multiplexer's error.
  abbrev pub later_answers : List Cause → List (Result (Unit {0}))
  later_answers [] = []
  later_answers (asked ∷ cs) = ok tt ∷ later_answers cs
  later_answers (serving_failed e ∷ cs) = err e ∷ later_answers cs

  shutdown-stopped : (a : Agent S) → a.is_shutdown ≡ true → shutdown p a ≡ (ok tt, a)
  unfolding shutdown
  shutdown-stopped a stopped = rw stopped refl

  stop_all-stopped :
      (cs : List Cause) (a : Agent S) → a.is_shutdown ≡ true → stop_all cs a ≡ (later_answers cs, a)
  unfolding stop_all stop serve after_shutdown
  stop_all-stopped [] a stopped = refl
  stop_all-stopped (asked ∷ cs) a stopped =
      rw (shutdown-stopped a stopped, stop_all-stopped cs a stopped) refl
  stop_all-stopped (serving_failed e ∷ cs) a stopped =
      rw (shutdown-stopped a stopped, stop_all-stopped cs a stopped) refl

  shutdown_lem :
      (a : Agent S)
      → a.is_shutdown ≡ false
      → a.is_channel_closed ≡ false
      → shutdown p a ≡ (
        (run_all (tear_down p) a.parts).0,
        record {
          parts = (run_all (tear_down p) a.parts).1;
          is_shutdown = true;
          is_channel_closed = true;
        },
      )
  unfolding shutdown
  shutdown_lem a runs opened = rw (runs, opened) refl

  after_shutdown-first_answer :
      (e : Error) (r : Result (Unit {0})) → after_shutdown e r ≡ first_answer (serving_failed e) r
  unfolding after_shutdown
  after_shutdown-first_answer e r = refl

  stop_lem :
      (c : Cause) (a : Agent S) → stop c a ≡ (first_answer c (shutdown p a).0, (shutdown p a).1)
  unfolding stop serve
  stop_lem asked a = refl
  stop_lem (serving_failed e) a =
      ap (λ r. (r, (shutdown p a).1)) (after_shutdown-first_answer e (shutdown p a).0)

  -- However often and for whatever causes an agent is stopped, by calls of `Shutdown` or by errors
  -- of the multiplexer that `serve` runs, its parts are torn down once, and the channel is closed.
  -- The first `Shutdown` returns what the tear-down returned and every later one succeeds, none of
  -- them panics for the closed channel, and `serve` returns the multiplexer's error, unless the
  -- tear-down that it started panicked.
  pub stop_all-tear_down :
      (c : Cause) (cs : List Cause) (a : Agent S)
      → a.is_shutdown ≡ false
      → a.is_channel_closed ≡ false
      → stop_all (c ∷ cs) a ≡ (
        first_answer c (run_all (tear_down p) a.parts).0 ∷ later_answers cs,
        record {
          parts = (run_all (tear_down p) a.parts).1;
          is_shutdown = true;
          is_channel_closed = true;
        },
      )
  unfolding stop_all
  stop_all-tear_down c cs a runs opened =
      let stopped : Agent S = record {
        parts = (run_all (tear_down p) a.parts).1;
        is_shutdown = true;
        is_channel_closed = true;
      } in
      rw (stop_lem c a, shutdown_lem a runs opened, stop_all-stopped cs stopped refl) refl

  -- Where `Leave` fails, nothing after it is done.
  shutdown-leave_fails :
      (a : Agent S) (e : Error) (s : S)
      → p.leave a.parts ≡ (err e, s)
      → run_all (tear_down p) a.parts ≡ (err e, s)
  unfolding run_all tear_down
  shutdown-leave_fails a e s fails =
      rw
        (
          ap (λ (x : Result (Unit {0}) × S). x.0) fails,
          ap (λ (x : Result (Unit {0}) × S). x.1) fails,
        )
        refl

started-is_shutdown :
    {S : Type 0} (x : Result (Unit {0}) × S) (a : Agent S)
    → started x ≡ ok a
    → (a.is_shutdown ≡ false) × (a.is_channel_closed ≡ false)
unfolding started
started-is_shutdown (ok u, s) a e = (cc, cc)
started-is_shutdown (err x, s) a e = cc

-- An agent that was started has not been shut down.
pub new_agent-is_shutdown :
    {S : Type 0} (f : Setup S) (s : S) (a : Agent S)
    → new_agent f s ≡ ok a
    → (a.is_shutdown ≡ false) × (a.is_channel_closed ≡ false)
unfolding new_agent
new_agent-is_shutdown f s a e =
    started-is_shutdown
      (run_all
        (f.setup_logger ∷ f.setup_mux ∷ f.setup_log ∷ f.setup_server ∷ f.setup_membership ∷ []) s)
      a e
