-- ===== src/Command/Running.antt =====
-- What keeps the command from starting an agent.
use smolkafka.Prelude.{◌≡◌, refl, ap, List}
use smolkafka.Exec.{Error, Result, ok, err}
use smolkafka.Config.{Settings, Crypto}
use smolkafka.Startup.{Library}
use smolkafka.Membership.{Serf}
use smolkafka.Agent.{Agent, Parts}
use smolkafka.Wiring
use smolkafka.Command.{System, Flag, setup_flags, Viper, Cobra, setup_config, run, execute, main}

module _ {V S M H O C P : Type 0} (cobra : Cobra V) (viper : Viper V) (crypto : Crypto C P)
    (sys : System) (pkg : Wiring.Packages S M (Settings C P) H O)
    (lib : Library S H (Wiring.StreamLayer M (Settings C P))) (serf : Serf S H)
    (parts : Parts (Wiring.Parts S M H))
    (wait : Agent (Wiring.Parts S M H) → Agent (Wiring.Parts S M H)) where
  -- A configuration that `setupConfig` does not load ends the command with its error, and one that it
  -- loads is the agent's: the command then ends as the run of the agent does.
  pub main-setup_config :
      (fs : List Flag) (world : S) (v w x : V)
      → setup_flags sys ≡ ok fs
      → cobra.bind_flags fs v ≡ (ok tt, w)
      → cobra.parse fs w ≡ (ok tt, x)
      → ((e : Error)
          → (setup_config viper crypto x).0 ≡ err e
          → (main cobra viper crypto sys pkg lib serf parts wait world v).0 ≡ err e)
        × ((c : Wiring.Config (Settings C P))
            → (setup_config viper crypto x).0 ≡ ok c
            → (main cobra viper crypto sys pkg lib serf parts wait world v).0
              ≡ run parts wait (Wiring.new pkg lib serf c world))
  unfolding main execute
  main-setup_config fs world v w x flags bound parsed = (
    λ e failed.
        rw
          (
            flags,
            ap (λ (r : Result (Unit {0}) × V). r.0) bound,
            ap (λ (r : Result (Unit {0}) × V). r.1) bound,
            ap (λ (r : Result (Unit {0}) × V). r.0) parsed,
            ap (λ (r : Result (Unit {0}) × V). r.1) parsed,
            failed,
          )
          refl,
    λ c loaded.
        rw
          (
            flags,
            ap (λ (r : Result (Unit {0}) × V). r.0) bound,
            ap (λ (r : Result (Unit {0}) × V). r.1) bound,
            ap (λ (r : Result (Unit {0}) × V). r.0) parsed,
            ap (λ (r : Result (Unit {0}) × V). r.1) parsed,
            loaded,
          )
          refl,
  )
