-- ===== src/Server/Access.antt =====
-- Who may call what.
use smolkafka.Prelude.{◌≡◌, refl, ℕ, Bool, true, false, Option}
use smolkafka.Exec.{err, permission_denied}
use smolkafka.Disk.{Name}
use smolkafka.Platform.{Record}
use smolkafka.Server.{CommitLog, object_wildcard, produce_action, authorize, produce, consume}

module _ {S : Type 0} (log : CommitLog S) (enforce : Name → Name → Name → Bool)
    (subject : Name) where
  -- A subject that may not produce is denied both `Produce` and `Consume`, whatever else it may
  -- do, and the log is not touched.
  pub denied_lem :
      (r : Option Record) (off : ℕ) (s : S)
      → enforce subject object_wildcard produce_action ≡ false
      → (produce log enforce subject r s ≡ (err permission_denied, s))
        × (consume log enforce subject off s ≡ (err permission_denied, s))
  unfolding produce consume authorize
  denied_lem r off s forbidden = (rw forbidden refl, rw forbidden refl)

  -- A subject that may produce has both calls served by the log.
  pub permitted_lem :
      (r : Option Record) (off : ℕ) (s : S)
      → enforce subject object_wildcard produce_action ≡ true
      → (produce log enforce subject r s ≡ log.append r s)
        × (consume log enforce subject off s ≡ log.read off s)
  unfolding produce consume authorize
  permitted_lem r off s allowed = (rw allowed refl, rw allowed refl)
