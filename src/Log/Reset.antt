-- ===== src/Log/Reset.antt =====
-- `Reset` of a log. It removes the log's directory and then reads it.
use smolkafka.Prelude.{ℕ, ◌≡◌, ◌≢◌, refl, inl, inr, false, List, []}
use smolkafka.Exec.{ok, Result-cases}
use smolkafka.Exec.Returns.{Returns}
use smolkafka.Bytes.{Bytes}
use smolkafka.Platform.{Platform}
use smolkafka.Disk.{remove_all}
use smolkafka.Log.Holds.{Holds}
use smolkafka.Log.Close.{log_close_lem}
use smolkafka.Log.{Log, read_dir, close, remove, setup, reset}

module _ (os : Platform) where
  -- No `Reset` succeeds, whatever the log.
  pub reset-fails : (l : Log) → (reset os l).0 ≢ ok tt
  unfolding reset remove setup read_dir remove_all
  reset-fails l e = elim (Result-cases (close os l).0) [
    | inl (u, closed) ↦ cc closed
    | inr (x, failed) ↦ cc failed
  ]

  -- `Remove` of a log that holds payloads succeeds, and the directory is gone with all its files.
  pub remove_lem :
      (l : Log) (base : ℕ) (fs : List Bytes)
      → Holds l base fs
      → Returns (remove os l) (λ _ l'. l'.dir ≡ record { exists = false; files = [] })
  unfolding remove remove_all
  remove_lem l base fs h =
      let (u, closed, _) = log_close_lem os l base fs h in rw closed (tt, refl, refl)
