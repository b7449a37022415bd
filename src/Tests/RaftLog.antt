-- ===== src/Tests/RaftLog.antt =====
-- internal/log/distributed.go at concrete inputs.
use smolkafka.Prelude.{inl, ℕ, suc, length, false, ◌%◌, ap, List, ◌≡◌, ◌≢◌, refl, [], ◌∷◌, arith}
use smolkafka.Exec.{ok, err, panic, offset_out_of_range}
use smolkafka.Exec.Returns.{Returns}
use smolkafka.Bytes.{Bytes}
use smolkafka.Store.Frames.{frames}
use smolkafka.Segment.{Config}
use smolkafka.Log
use smolkafka.Log.{Log, with_defaults}
use smolkafka.Log.Setup.{empty_dir, new_log_lem}
use smolkafka.Log.Holds.{Holds}
use smolkafka.Raft.{
  RaftLog, delete_range, first_index, last_index, failure, fsm_apply, append_command, record_of,
  get_log, store_logs, persist, restore, restore_loop,
}
use smolkafka.Raft.Agreement.{AreCommands, apply_all, apply_all-Agree}
use smolkafka.Raft.Entries.{get_log-store_logs}
use smolkafka.Log
use smolkafka.Log.Kept.{Truncated}
use smolkafka.Log.Truncate.{truncate_lem}
use smolkafka.Raft.Snapshot.{behind, append_all, persist_lem}
use smolkafka.Raft.LogStore.{delete_range-all}
use smolkafka.Raft.Commands.{fsm_apply-no_record}
use smolkafka.Raft.Rounds.{Rounds, restore_loop-Rounds}
use smolkafka.Raft.Restore.{restore-fails}
use smolkafka.Tests.{toy, hello}
use smolkafka.Tests.Logs.{
  fresh, fresh-Holds, aligned, store_limit, one, at_five, at_six, two, two-Holds,
}

-- The request type and the marshalled request.
abbrev pub command : Bytes
command = 0 ∷ 0 ∷ 3 ∷ 1 ∷ 104 ∷ 105 ∷ []

pub command_lem : append_command toy hello ≡ ok command
unfolding append_command
command_lem = refl

-- Another server, whose segments have room for ten entries.
abbrev ten_entries : Config
ten_entries = record { max_store_bytes = 1000; max_index_bytes = 120; initial_offset = 5 }

abbrev roomy : Log
roomy = (Log.new_log toy empty_dir ten_entries).1

roomy_lem :
    Returns
      (Log.new_log toy empty_dir ten_entries)
      (λ _ l. Holds l 5 [] × (l.config ≡ with_defaults ten_entries))
roomy_lem = new_log_lem toy ten_entries (omega arith) (omega arith)

roomy_config : roomy.config ≡ ten_entries
unfolding with_defaults
roomy_config = roomy_lem.2.1

roomy_limit : roomy.config.max_store_bytes ≡ 1000
roomy_limit = ap (λ (c : Config). c.max_store_bytes) roomy_config

-- Three commands fill a segment of the first server, and the same on the other do not.
abbrev pub commands : List Bytes
commands = command ∷ command ∷ command ∷ []

abbrev pub three : List Bytes
three =
    (5 ∷ 3 ∷ 1 ∷ 104 ∷ 105 ∷ []) ∷ (6 ∷ 3 ∷ 1 ∷ 104 ∷ 105 ∷ []) ∷ (7 ∷ 3 ∷ 1 ∷ 104 ∷ 105 ∷ []) ∷ []

pub fits :
    (c : Config)
    → c.max_store_bytes ≡ 1000
    → AreCommands toy c 5 (hello ∷ hello ∷ hello ∷ []) commands three
fits c limit = (
  command_lem,
  refl,
  omega (arith, limit),
  omega arith,
  (
    command_lem,
    refl,
    omega (arith, limit),
    omega arith,
    (command_lem, refl, omega (arith, limit), omega arith, tt),
  ),
)

abbrev entry : RaftLog
entry = record { index = 0; term = 3; type = 1; content = 104 ∷ 105 ∷ [] }

-- The second of two entries.
get_log-store_logs_example :
    Returns
      (store_logs toy (entry ∷ entry ∷ []) fresh)
      (λ _ l. (get_log toy 6 l).0 ≡ ok (record entry { index = 6 }))
unfolding record_of
get_log-store_logs_example =
    get_log-store_logs toy fresh 5 1 [] (entry ∷ entry ∷ [])
      (at_five ∷ (6 ∷ 3 ∷ 1 ∷ 104 ∷ 105 ∷ []) ∷ []) entry fresh-Holds (inl aligned)
      (
        refl,
        omega (arith, store_limit),
        omega arith,
        (refl, omega (arith, store_limit), omega arith, tt),
      )
      refl

three-Holds : Holds (apply_all toy commands fresh).1 5 three
three-Holds =
    (apply_all-Agree toy (hello ∷ hello ∷ hello ∷ []) commands three fresh roomy 5 [] fresh-Holds
      roomy_lem.2.0 (inl aligned) (inl (ap (λ (c : Config). c.max_index_bytes % 12) roomy_config))
      (fits fresh.config store_limit) (fits roomy.config roomy_limit)).1

-- Three records, the third in a new segment, between two snapshots.
persist_lem_example : Returns (persist fresh) (λ b l.
    (b ≡ behind fresh.segments)
    × Returns
        (append_all toy (hello ∷ hello ∷ hello ∷ []) l)
        (λ _ m. Holds m 5 three × ((persist m).0 ≡ ok [])))
persist_lem_example =
    persist_lem toy fresh 5 [] (hello ∷ hello ∷ hello ∷ []) three fresh-Holds (inl aligned) (
      refl,
      omega (arith, store_limit),
      omega arith,
      (
        refl,
        omega (arith, store_limit),
        omega arith,
        (refl, omega (arith, store_limit), omega arith, tt),
      ),
    )

-- The first segment of two holds two entries and goes, and the second stays.
truncate_lem_example :
    Returns
      (Log.truncate toy 6 (apply_all toy commands fresh).1)
      (λ _ l. Truncated 5 6 three (apply_all toy commands fresh).1 l)
truncate_lem_example =
    truncate_lem toy (apply_all toy commands fresh).1 5 6 three three-Holds (omega arith)
      (omega arith)

restore-fails_example : (restore toy (1 ∷ []) one).0 ≢ ok tt
restore-fails_example = restore-fails toy (1 ∷ []) one (λ e. cc e)

restore_loop-Rounds_example :
    Rounds toy false
      (frames three)
      roomy
      (restore_loop toy (suc (length (frames three))) false (frames three) roomy).0
      (restore_loop toy (suc (length (frames three))) false (frames three) roomy).1
restore_loop-Rounds_example =
    restore_loop-Rounds toy (suc (length (frames three))) false (frames three) roomy (omega arith)

-- A request without a record is marshalled to nothing.
fsm_apply-no_record_example : fsm_apply toy (0 ∷ []) one ≡ (failure panic, one)
fsm_apply-no_record_example = fsm_apply-no_record toy (0 ∷ []) one refl

-- The last of two entries is to go, and both do.
delete_range-all_example : Returns (delete_range toy 6 6 two) (λ _ l.
    (first_index l ≡ err panic)
    × (last_index l ≡ err panic)
    × ((index : ℕ) → (get_log toy index l).0 ≡ err (offset_out_of_range index)))
delete_range-all_example =
    delete_range-all toy two 5 6 6 (at_five ∷ at_six ∷ []) two-Holds (omega arith) (omega arith)
