-- ===== src/Tests/Logs.antt =====
-- internal/log/log.go at concrete inputs.
use smolkafka.Prelude.{
  inl, inr, List, ℕ, ◌%◌, ◌≡◌, ◌≢◌, refl, ap, ◌∙◌, some, [], ◌∷◌, arith, get_elem?,
}
use smolkafka.Exec.{ok, err, panic, offset_out_of_range}
use smolkafka.Exec.Returns.{Returns}
use smolkafka.Bytes.{Bytes}
use smolkafka.Segment.{Config}
use smolkafka.Log
use smolkafka.Log.{Log, with_defaults}
use smolkafka.Log.Holds.{Holds}
use smolkafka.Log.Setup.{empty_dir, new_log_lem}
use smolkafka.Log.Append.{log_append_lem}
use smolkafka.Log.Read.{log_read_lem}
use smolkafka.Log.Suits.{AllLong, Suits}
use smolkafka.Log.Truncate.{truncate-all}
use smolkafka.Log.Contract.{
  Contents, Call, append, read, highest_offset, restart, Promised, MayRun, perform_all,
}
use smolkafka.Log.Contract.Runs.{Has, perform_all-Promised}
use smolkafka.Log.Contract.Bounds.{AllBounded, perform_all-AllBounded}
use smolkafka.Log.Restart.{close-new_log}
use smolkafka.Log.Stuck.{append_each, append-stuck_forever}
use smolkafka.Tests.{toy, hello}

-- Room for two index entries in a segment, which begins at offset 5.
abbrev pub two_entries : Config
two_entries = record { max_store_bytes = 1000; max_index_bytes = 24; initial_offset = 5 }

abbrev pub fresh : Log
fresh = (Log.new_log toy empty_dir two_entries).1

new_log_lem_example :
    Returns
      (Log.new_log toy empty_dir two_entries)
      (λ _ l. Holds l 5 [] × (l.config ≡ with_defaults two_entries))
new_log_lem_example = new_log_lem toy two_entries (omega arith) (omega arith)

pub fresh-Holds : Holds fresh 5 []
fresh-Holds = (new_log_lem toy two_entries (omega arith) (omega arith)).2.0

fresh_config : fresh.config ≡ two_entries
unfolding with_defaults
fresh_config = (new_log_lem toy two_entries (omega arith) (omega arith)).2.1

pub aligned : fresh.config.max_index_bytes % 12 ≡ 0
aligned = ap (λ (c : Config). c.max_index_bytes % 12) fresh_config

pub store_limit : fresh.config.max_store_bytes ≡ 1000
store_limit = ap (λ (c : Config). c.max_store_bytes) fresh_config

-- The payloads of the record at the first two offsets.
abbrev pub at_five : Bytes
at_five = 5 ∷ 3 ∷ 1 ∷ 104 ∷ 105 ∷ []

abbrev pub at_six : Bytes
at_six = 6 ∷ 3 ∷ 1 ∷ 104 ∷ 105 ∷ []

-- The limits where none are configured.
abbrev unlimited : Config
unlimited = record { max_store_bytes = 0; max_index_bytes = 0; initial_offset = 0 }

abbrev pub usual : Log
usual = (Log.new_log toy empty_dir unlimited).1

pub usual_lem :
    Returns
      (Log.new_log toy empty_dir unlimited)
      (λ _ l. Holds l 0 [] × (l.config ≡ with_defaults unlimited))
usual_lem = new_log_lem toy unlimited (omega arith) (omega arith)

pub usual_store : usual.config.max_store_bytes ≡ 1024
unfolding with_defaults
usual_store = ap (λ (c : Config). c.max_store_bytes) usual_lem.2.1

pub usual_index : usual.config.max_index_bytes ≡ 1024
unfolding with_defaults
usual_index = ap (λ (c : Config). c.max_index_bytes) usual_lem.2.1

-- They suit records of five bytes, which fill the store before the index.
pub usual-Suits : (fs : List Bytes) → AllLong 5 fs → Suits usual.config fs
usual-Suits fs long = inr (5, 85, long, omega (arith, usual_store), omega (arith, usual_index))

log_append_lem_example :
    Returns (Log.append toy hello usual) (λ off l.
      (off ≡ 0) × Holds l 0 ((0 ∷ 3 ∷ 1 ∷ 104 ∷ 105 ∷ []) ∷ []) × (l.config ≡ usual.config))
log_append_lem_example =
    log_append_lem toy usual 0 [] hello (0 ∷ 3 ∷ 1 ∷ 104 ∷ 105 ∷ []) usual_lem.2.0
      (usual-Suits [] tt) refl (omega (arith, usual_store)) (omega arith)

one_lem :
    Returns
      (Log.append toy hello fresh)
      (λ off l. (off ≡ 5) × Holds l 5 (at_five ∷ []) × (l.config ≡ fresh.config))
one_lem =
    log_append_lem toy fresh 5 [] hello at_five fresh-Holds (inl aligned) refl
      (omega (arith, store_limit)) (omega arith)

abbrev pub one : Log
one = (Log.append toy hello fresh).1

pub one-Holds : Holds one 5 (at_five ∷ [])
one-Holds = one_lem.2.1

pub one_config : one.config ≡ fresh.config
one_config = one_lem.2.2

log_read_lem_example :
    ((Log.read toy 5 one).0 ≡ ok (record hello { offset = 5 }))
    × Holds (Log.read toy 5 one).1 5 (at_five ∷ [])
    × ((Log.read toy 5 one).1.config ≡ one.config)
log_read_lem_example = log_read_lem toy one 5 0 (at_five ∷ []) at_five one-Holds refl

-- The second record fills the first segment, and a third log of two segments is cut behind the first.
two_lem :
    Returns
      (Log.append toy hello one)
      (λ off l. (off ≡ 6) × Holds l 5 (at_five ∷ at_six ∷ []) × (l.config ≡ one.config))
two_lem =
    log_append_lem toy one 5 (at_five ∷ []) hello at_six one-Holds
      (inl (ap (λ (c : Config). c.max_index_bytes % 12) one_config ∙ aligned)) refl
      (omega (arith, store_limit, ap (λ (c : Config). c.max_store_bytes) one_config)) (omega arith)

abbrev pub two : Log
two = (Log.append toy hello one).1

pub two-Holds : Holds two 5 (at_five ∷ at_six ∷ [])
two-Holds = two_lem.2.1

truncate-all_example : Returns (Log.truncate toy 6 two) (λ _ l.
    (Log.lowest_offset l ≡ err panic)
    × (Log.highest_offset l ≡ err panic)
    × ((off : ℕ) → (Log.read toy off l).0 ≡ err (offset_out_of_range off)))
truncate-all_example =
    truncate-all toy two 5 6 (at_five ∷ at_six ∷ []) two-Holds (omega arith) (omega arith)

-- No room for one entry.
abbrev too_small : Config
too_small = record { max_store_bytes = 1000; max_index_bytes = 8; initial_offset = 0 }

abbrev small : Log
small = (Log.new_log toy empty_dir too_small).1

small_lem :
    Returns
      (Log.new_log toy empty_dir too_small)
      (λ _ l. Holds l 0 [] × (l.config ≡ with_defaults too_small))
small_lem = new_log_lem toy too_small (omega arith) (omega arith)

small_limit : small.config.max_index_bytes ≡ 8
unfolding with_defaults
small_limit = ap (λ (c : Config). c.max_index_bytes) small_lem.2.1

append-stuck_forever_example :
    get_elem? (append_each toy (hello ∷ hello ∷ []) small) 1 ≢ some (ok 0)
append-stuck_forever_example =
    append-stuck_forever toy small 0 [] small_lem.2.0 (omega (arith, small_limit))
      (hello ∷ hello ∷ []) 1 0

close-new_log_example : Returns (Log.close toy two) (λ _ l.
    Returns
      (Log.new_log toy l.dir l.config)
      (λ _ l'. Holds l' 5 (at_five ∷ at_six ∷ []) × (l'.config ≡ two.config)))
close-new_log_example = close-new_log toy two 5 (at_five ∷ at_six ∷ []) two-Holds

-- A run of calls, with the log closed and opened again in between.
abbrev calls : List Call
calls = append hello ∷ restart ∷ read 5 ∷ highest_offset ∷ []

abbrev nothing_yet : Contents
nothing_yet = record { first = 5; payloads = [] }

fresh-Has : Has two_entries fresh nothing_yet
fresh-Has = record { holds = fresh-Holds; config_lem = fresh_config }

may_call : MayRun toy two_entries calls nothing_yet
may_call = (
  (at_five, refl, omega arith, omega arith, inl refl),
  λ x b k. (tt, λ y c l. (tt, λ z d m. (tt, λ v e n. tt))),
)

perform_all-Promised_example :
    (b : Contents) × Promised toy calls (perform_all toy calls fresh).0 nothing_yet b
    × Has two_entries (perform_all toy calls fresh).1 b
perform_all-Promised_example =
    perform_all-Promised toy two_entries calls fresh nothing_yet fresh-Has may_call

perform_all-AllBounded_example : AllBounded two_entries (perform_all toy calls fresh).1.segments
perform_all-AllBounded_example =
    perform_all-AllBounded toy two_entries calls fresh nothing_yet fresh-Has may_call
